-- ===== src/Ring/Lockfree.antt =====
-- collectors/common/include/aiguard/common/circular_buffer.h: `LockFreeCircularBuffer` under one producer
-- and one consumer, whose loads and stores interleave. An acquire load reads the last released
-- store; a thread's own index is read with it.
use aiguard_siem.Common.{
  ℕ, ◌+◌, ◌%◌, Option, List, [], ◌∷◌, ◌++◌, if◌then◌else◌, ◌==◌, get_elem?, set,
}
use aiguard_siem.Ring.Buffer.{RingBuffer}

-- Where a thread stands in `try_push`: before it, with room found and the slot to write, or with the
-- slot written and the head to publish.
pub data Producer (A : Type 0) : Type 0 where
  ready : Producer A
  storing : A → ℕ → Producer A
  publishing : A → ℕ → Producer A

-- In `try_pop`: before it, with a value found, or with the value moved out and the tail to publish.
pub data Consumer (A : Type 0) : Type 0 where
  idle : Consumer A
  reading : Consumer A
  leaving : Option A → Consumer A

-- The ring, with the values whose push and pop are done.
pub record Shared (A : Type 0) : Type 0 where
  pub ring : RingBuffer A
  pub sent : List A
  pub received : List (Option A)

module _ {A : Type 0} where
  -- One access of the producer; a new call pushes `x`.
  unfoldable pub push_act : A → Producer A → Shared A → Producer A × Shared A
  push_act x ready s =
      let next_head : ℕ = (s.ring.head + 1) % s.ring.capacity in
      if next_head == s.ring.tail then (ready, s) else (storing x next_head, s)
  push_act x (storing y next_head) s = (
    publishing y next_head,
    record s { ring = record s.ring { buffer = set s.ring.buffer s.ring.head y } },
  )
  push_act x (publishing y next_head) s =
      (ready, record s { ring = record s.ring { head = next_head }; sent = s.sent ++ (y ∷ []) })

  unfoldable pub pop_act : Consumer A → Shared A → Consumer A × Shared A
  pop_act idle s = if s.ring.head == s.ring.tail then (idle, s) else (reading, s)
  pop_act reading s = (leaving (get_elem? s.ring.buffer s.ring.tail), s)
  pop_act (leaving v) s = (
    idle,
    record s {
      ring = record s.ring { tail = (s.ring.tail + 1) % s.ring.capacity };
      received = s.received ++ (v ∷ []);
    },
  )

-- Whose turn it is.
pub data Turn (A : Type 0) : Type 0 where
  producer : A → Turn A
  consumer : Turn A

module _ {A : Type 0} where
  abbrev pub interleave : List (Turn A) → Producer A → Consumer A → Shared A → Shared A
  interleave [] p c s = s
  interleave (producer x ∷ turns) p c s = let (p', s') = push_act x p s in interleave turns p' c s'
  interleave (consumer ∷ turns) p c s = let (c', s') = pop_act c s in interleave turns p c' s'
