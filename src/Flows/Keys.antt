-- ===== src/Flows/Keys.antt =====
-- The two directions of a conversation have one key.
use aiguard_siem.Common.{Eq, ◌≡◌, ◌↔◌, true, not, arith, ◌⊎◌}
use aiguard_siem.Flows.Packet.{FlowKey, same_key, reverse_key, normalize_key}

pub same_key_iff : (a b : FlowKey) → (same_key a b ≡ true) ↔ (a ≡ b)
unfolding same_key
same_key_iff a b = ground arith

instance abbrev pub flow_key : Eq FlowKey
flow_key = record { beq = same_key; beq_iff = same_key_iff }

-- A packet and its reply are tracked under the same key. They have opposite directions, except
-- where both ends are the same address and port, and then both are forward.
pub normalize_key-reverse_key :
    (k : FlowKey)
    → ((normalize_key (reverse_key k)).0 ≡ (normalize_key k).0)
      × (((normalize_key (reverse_key k)).1 ≡ not (normalize_key k).1)
          ⊎ ((reverse_key k ≡ k) × ((normalize_key k).1 ≡ true)))
unfolding normalize_key
normalize_key-reverse_key k = ground arith

pub normalize_key_idem :
    (k : FlowKey) → normalize_key (normalize_key k).0 ≡ ((normalize_key k).0, true)
unfolding normalize_key
normalize_key_idem k = ground arith
