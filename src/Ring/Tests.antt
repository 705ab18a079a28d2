-- ===== src/Ring/Tests.antt =====
-- A ring of four slots.
use aiguard_siem.Common.{ℕ, ◌≡◌, refl, true, false, some, none, List, [], ◌∷◌, arith}
use aiguard_siem.Ring.Lockfree.{
  ready, idle, Shared, Turn, producer, consumer, interleave, push_act, pop_act,
}
use aiguard_siem.Ring.Interleaving.{InOrder, interleave-InOrder}
use aiguard_siem.Ring.Buffer.{RingBuffer, new_buffer, try_push}
use aiguard_siem.Ring.Refinement.{Call, Answer, push, pop, pushed, popped, run, run-eq-run_spec}

abbrev calls : List (Call ℕ)
calls = push 1 ∷ push 2 ∷ push 3 ∷ push 4 ∷ pop ∷ push 5 ∷ pop ∷ pop ∷ pop ∷ pop ∷ []

-- The fourth push is refused.
abbrev answers : List (Answer ℕ)
answers =
    pushed true
    ∷ pushed true
    ∷ pushed true
    ∷ pushed false
    ∷ popped (some 1)
    ∷ pushed true
    ∷ popped (some 2)
    ∷ popped (some 3)
    ∷ popped (some 5)
    ∷ popped none
    ∷ []

run-eq-run_spec_example : run calls (new_buffer 4 0) ≡ answers
run-eq-run_spec_example = run-eq-run_spec calls 4 0 (omega arith)

abbrev one_value : RingBuffer ℕ
unfolding try_push
one_value = (try_push 7 (new_buffer 4 0)).0

-- The consumer looks before the first value is published, and the producer runs ahead of it.
abbrev turns : List (Turn ℕ)
turns =
    producer 1
    ∷ consumer
    ∷ producer 0
    ∷ producer 0
    ∷ consumer
    ∷ producer 2
    ∷ consumer
    ∷ producer 0
    ∷ consumer
    ∷ producer 0
    ∷ []

interleave-InOrder_example :
    (q : List ℕ) × InOrder
      (interleave turns ready idle (record { ring = new_buffer 4 0; sent = []; received = [] }))
      q
interleave-InOrder_example = interleave-InOrder turns 4 0 (omega arith)

-- After those turns the first value is received and the second is in the ring.
run_interleave :
    let s : Shared ℕ =
      interleave turns ready idle (record { ring = new_buffer 4 0; sent = []; received = [] }) in
    (s.received ≡ some 1 ∷ []) × (s.sent ≡ 1 ∷ 2 ∷ [])
unfolding push_act pop_act
run_interleave = (refl, refl)
