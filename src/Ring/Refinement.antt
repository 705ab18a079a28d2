-- ===== src/Ring/Refinement.antt =====
-- Every operation of the ring does what the bounded queue does, and so does every sequence of them.
use aiguard_siem.Common.{
  ℕ, zero, suc, ◌+◌, ◌*◌, ◌-◌, ◌%◌, ◌^◌, ◌<◌, ◌≤◌, ◌≡◌, refl, sym, ap, ◌∙◌, ◌++◌, [], ◌∷◌, List,
  some, Option, Bool, true, false, Bool-cases, inl, inr, ltb, arith, get_elem?, length,
  length-append, set, length-set, get_elem?-set_self, get_elem?-set_ne, ◌==◌,
}
use native.Mathlib.Nat.{
  mod-eq_of_lt, mod-lt, mod-mod_of_dvd, add-mod_right, add-mul-mod_self_left, mul-suc, mul-zero,
}
use aiguard_siem.Ring.Buffer.{RingBuffer, new_buffer, try_push, try_pop, empty, full, size}
use aiguard_siem.Ring.Slots.{mod_cases, mod-add, get_elem?-append_left, get_elem?-snoc}
use aiguard_siem.Ring.Queue.{
  Holds, push_spec, pop_spec, new_buffer-Holds, next_head, full_test, empty_test, head_in,
  slot_free,
}

-- A call of the buffer, and what it answers.
pub data Call (A : Type 0) : Type 0 where
  push : A → Call A
  pop : Call A

pub data Answer (A : Type 0) : Type 0 where
  pushed : Bool → Answer A
  popped : Option A → Answer A

module _ {A : Type 0} where
  push-Holds :
      (x : A) (b : RingBuffer A) (q : List A)
      → Holds b q
      → length q + 1 < b.capacity
      → Holds
          (record b { buffer = set b.buffer b.head x; head = (b.head + 1) % b.capacity })
          (q ++ (x ∷ []))
  push-Holds x b q h room = record {
    fits = length-set b.buffer b.head x ∙ h.fits;
    bounded = omega (arith, length-append q (x ∷ []));
    tail_in = h.tail_in;
    head_at =
        next_head b q h ∙ ap (λ n. (b.tail + n) % b.capacity) (sym (length-append q (x ∷ [])));
    slot_at = λ i l. elim (Bool-cases (ltb i (length q))) [
      | inl old ↦
          let before : i < length q = ground arith in
          get_elem?-set_ne b.buffer x (slot_free b q i h before)
          ∙ (h.slot_at i before ∙ sym (get_elem?-append_left q (x ∷ []) i before))
      | inr new ↦
          let late : length q ≤ i = ground arith in
          let last : i ≡ length q = omega (arith, l, length-append q (x ∷ []), late) in
          let place : b.head < length b.buffer = omega (arith, head_in b q h, h.fits) in
          ap (λ k. get_elem? (set b.buffer b.head x) ((b.tail + k) % b.capacity)) last
          ∙ (ap (get_elem? (set b.buffer b.head x)) (sym h.head_at)
              ∙ (get_elem?-set_self b.buffer b.head x place
                  ∙ (sym (get_elem?-snoc q x) ∙ ap (get_elem? (q ++ (x ∷ []))) (sym last))))
    ];
  }

  pub pop-Holds :
      (x : A) (b : RingBuffer A) (q : List A)
      → Holds b (x ∷ q)
      → Holds (record b { tail = (b.tail + 1) % b.capacity }) q
  pop-Holds x b q h =
      let n = h.bounded in
      let t = h.tail_in in
      record {
        fits = h.fits;
        bounded = omega (arith, n);
        tail_in = mod-lt (b.tail + 1) (omega (arith, n));
        head_at =
            h.head_at
            ∙ (ap (λ k. k % b.capacity) (omega arith)
                ∙ sym (mod-add (b.tail + 1) (length q) b.capacity));
        slot_at = λ i l.
            ap (get_elem? b.buffer)
              (mod-add (b.tail + 1) i b.capacity ∙ ap (λ k. k % b.capacity) (omega arith))
            ∙ h.slot_at (suc i) (omega (arith, l));
      }

  abbrev pub run : List (Call A) → RingBuffer A → List (Answer A)
  run [] b = []
  run (push x ∷ calls) b = let (b', ok) = try_push x b in pushed ok ∷ run calls b'
  run (pop ∷ calls) b = let (b', x) = try_pop b in popped x ∷ run calls b'

  abbrev pub run_spec : ℕ → List (Call A) → List A → List (Answer A)
  run_spec capacity [] q = []
  run_spec capacity (push x ∷ calls) q =
      let (q', ok) = push_spec capacity x q in pushed ok ∷ run_spec capacity calls q'
  run_spec capacity (pop ∷ calls) q =
      let (q', x) = pop_spec q in popped x ∷ run_spec capacity calls q'

  -- A push answers as the queue does, and leaves a buffer that holds the queue after it.
  pub try_push_lem :
      (x : A) (b : RingBuffer A) (q : List A)
      → Holds b q
      → let r = try_push x b in
        let s = push_spec b.capacity x q in
        (r.1 ≡ s.1) × (Holds r.0 s.0 × (r.0.capacity ≡ b.capacity))
  unfolding try_push
  try_push_lem x b q h = elim (Bool-cases (length q + 1 == b.capacity)) [
    | inl last ↦
        let t : ((b.head + 1) % b.capacity == b.tail) ≡ true = full_test b q h ∙ last in
        rw (t, last) ((refl, (h, refl)))
    | inr room ↦
        let t : ((b.head + 1) % b.capacity == b.tail) ≡ false = full_test b q h ∙ room in
        let n = h.bounded in
        let space : length q + 1 < b.capacity = ground arith in
        rw (t, room) ((refl, (push-Holds x b q h space, refl)))
  ]

  pub try_pop_lem :
      (b : RingBuffer A) (q : List A)
      → Holds b q
      → let r = try_pop b in
        let s = pop_spec q in (r.1 ≡ s.1) × (Holds r.0 s.0 × (r.0.capacity ≡ b.capacity))
  unfolding try_pop
  try_pop_lem b [] h =
      let t : (b.head == b.tail) ≡ true = empty_test b [] h in rw t ((refl, (h, refl)))
  try_pop_lem b (x ∷ q) h =
      let some_left : (length (x ∷ q) == 0) ≡ false = ground arith in
      let t : (b.head == b.tail) ≡ false = empty_test b (x ∷ q) h ∙ some_left in
      let start : (b.tail + 0) % b.capacity ≡ b.tail =
        ap (λ k. k % b.capacity) (omega arith) ∙ mod-eq_of_lt h.tail_in in
      let first : get_elem? b.buffer b.tail ≡ some x =
        ap (get_elem? b.buffer) (sym start) ∙ h.slot_at 0 (omega arith) in
      rw t ((first, (pop-Holds x b q h, refl)))

  run_lem :
      (calls : List (Call A)) (b : RingBuffer A) (q : List A)
      → Holds b q
      → run calls b ≡ run_spec b.capacity calls q
  run_lem [] b q h = refl
  run_lem (push x ∷ calls) b q h =
      let (same, (held, size)) = try_push_lem x b q h in
      let rest = run_lem calls (try_push x b).0 (push_spec b.capacity x q).0 held in
      ap (λ k. pushed k ∷ run calls (try_push x b).0) same
      ∙ ap (◌∷◌ (pushed (push_spec b.capacity x q).1))
          (rest ∙ ap (λ c. run_spec c calls (push_spec b.capacity x q).0) size)
  run_lem (pop ∷ calls) b q h =
      let (same, (held, size)) = try_pop_lem b q h in
      let rest = run_lem calls (try_pop b).0 (pop_spec q).0 held in
      ap (λ k. popped k ∷ run calls (try_pop b).0) same
      ∙ ap (◌∷◌ (popped (pop_spec q).1)) (rest ∙ ap (λ c. run_spec c calls (pop_spec q).0) size)

  -- On a new ring of any positive capacity, every sequence of pushes and pops answers as on an empty
  -- queue that takes one value fewer than the capacity: values come out in the order in which they
  -- went in, each once, and a push is refused exactly when the queue is full.
  pub run-eq-run_spec :
      (calls : List (Call A)) (capacity : ℕ) (blank : A)
      → 0 < capacity
      → run calls (new_buffer capacity blank) ≡ run_spec capacity calls []
  run-eq-run_spec calls capacity blank h =
      run_lem calls (new_buffer capacity blank) [] (new_buffer-Holds capacity blank h)

  size_mod :
      (b : RingBuffer A) (q : List A) (m : ℕ)
      → Holds b q
      → b.capacity * m ≡ 2 ^ 64
      → (b.head + 2 ^ 64 - b.tail) % b.capacity ≡ length q
  size_mod b q zero h d = absurd (omega (arith, d, mul-zero b.capacity))
  size_mod b q (suc k) h d =
      let e = h.head_at in
      let t = h.tail_in in
      let n = h.bounded in
      let p = mul-suc b.capacity k in
      let x : ℕ = b.head + 2 ^ 64 - b.tail in
      let around : (length q + b.capacity * suc k) % b.capacity ≡ length q =
        add-mul-mod_self_left (length q) b.capacity (suc k) ∙ mod-eq_of_lt n in
      elim (mod_cases (b.tail + length q) b.capacity (omega arith)) [
        | inl low ↦ ap (λ y. y % b.capacity) (omega (arith, e, d, p, low.1)) ∙ around
        | inr high ↦
            sym (add-mod_right x b.capacity)
            ∙ (ap (λ y. y % b.capacity) (omega (arith, e, d, p, high.1, high.0)) ∙ around)
      ]

  -- On a ring that holds a queue, `empty` and `full` tell whether the queue is, and `size` is its
  -- length, for capacities that divide 2^64, although the difference of the indices wraps.
  pub observers_lem :
      (b : RingBuffer A) (q : List A) (m : ℕ)
      → Holds b q
      → b.capacity * m ≡ 2 ^ 64
      → (empty b ≡ (length q == 0))
        × ((full b ≡ (length q + 1 == b.capacity)) × (size b ≡ length q))
  unfolding empty full size
  observers_lem b q m h d = (
    empty_test b q h,
    (
      full_test b q h,
      mod-mod_of_dvd b.capacity (b.head + 2 ^ 64 - b.tail) ∣ (m, sym d) ∣₁ ∙ size_mod b q m h d,
    ),
  )
