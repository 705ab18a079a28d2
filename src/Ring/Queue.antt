-- ===== src/Ring/Queue.antt =====
-- The ring is a queue of at most `capacity - 1` values.
use aiguard_siem.Common.{
  ℕ, ◌+◌, ◌%◌, ◌<◌, ◌≡◌, ◌≢◌, sym, ap, ◌∙◌, ◌++◌, [], ◌∷◌, List, some, none, Option, Bool, true,
  false, inl, inr, arith, get_elem?, length, if◌then◌else◌, ◌==◌, length-replicate,
}
use native.Mathlib.Nat.{mod-eq_of_lt}
use aiguard_siem.Ring.Buffer.{RingBuffer, new_buffer}
use aiguard_siem.Ring.Slots.{mod_cases, mod-add}

module _ {A : Type 0} where
  -- The buffer holds the values of `q`, the oldest first.
  pub record Holds (b : RingBuffer A) (q : List A) : Type 0 where
    pub fits : length b.buffer ≡ b.capacity
    pub bounded : length q < b.capacity
    pub tail_in : b.tail < b.capacity
    pub head_at : b.head ≡ (b.tail + length q) % b.capacity
    pub slot_at :
        (i : ℕ) → i < length q → get_elem? b.buffer ((b.tail + i) % b.capacity) ≡ get_elem? q i

  -- The queue that the buffer stands for: a push is refused when it would fill the last slot.
  abbrev pub push_spec : ℕ → A → List A → List A × Bool
  push_spec capacity x q = if length q + 1 == capacity then (q, false) else (q ++ (x ∷ []), true)

  abbrev pub pop_spec : List A → List A × Option A
  pop_spec [] = ([], none)
  pop_spec (x ∷ q) = (q, some x)

  pub new_buffer-Holds :
      (capacity : ℕ) (blank : A) → 0 < capacity → Holds (new_buffer capacity blank) []
  new_buffer-Holds capacity blank h = record {
    fits = length-replicate capacity blank;
    bounded = h;
    tail_in = h;
    head_at = sym (mod-eq_of_lt h);
    slot_at = λ i l. absurd (omega arith);
  }

  pub next_head :
      (b : RingBuffer A) (q : List A)
      → Holds b q
      → (b.head + 1) % b.capacity ≡ (b.tail + (length q + 1)) % b.capacity
  next_head b q h =
      ap (λ x. (x + 1) % b.capacity) h.head_at
      ∙ (mod-add (b.tail + length q) 1 b.capacity ∙ ap (λ x. x % b.capacity) (omega arith))

  pub full_test :
      (b : RingBuffer A) (q : List A)
      → Holds b q
      → ((b.head + 1) % b.capacity == b.tail) ≡ (length q + 1 == b.capacity)
  full_test b q h =
      let e = next_head b q h in
      let t = h.tail_in in
      let n = h.bounded in
      elim (mod_cases (b.tail + (length q + 1)) b.capacity (omega arith)) [
        | inl low ↦ let l = low.1 in let s = low.0 in rw (e, l) (ground arith)
        | inr high ↦ let l = high.1 in let s = high.0 in rw (e, l) (ground arith)
      ]

  pub empty_test :
      (b : RingBuffer A) (q : List A) → Holds b q → (b.head == b.tail) ≡ (length q == 0)
  empty_test b q h =
      let e = h.head_at in
      let t = h.tail_in in
      let n = h.bounded in
      elim (mod_cases (b.tail + length q) b.capacity (omega arith)) [
        | inl low ↦ let l = low.1 in let s = low.0 in rw (e, l) (ground arith)
        | inr high ↦ let l = high.1 in let s = high.0 in rw (e, l) (ground arith)
      ]

  pub head_in : (b : RingBuffer A) (q : List A) → Holds b q → b.head < b.capacity
  head_in b q h =
      let e = h.head_at in
      let t = h.tail_in in
      let n = h.bounded in
      elim (mod_cases (b.tail + length q) b.capacity (omega arith)) [
        | inl low ↦ omega (arith, e, low.1, low.0)
        | inr high ↦ omega (arith, e, high.1, high.0)
      ]

  -- The slot written is none of those in use.
  pub slot_free :
      (b : RingBuffer A) (q : List A) (i : ℕ)
      → Holds b q
      → i < length q
      → b.head ≢ (b.tail + i) % b.capacity
  slot_free b q i h l same =
      let e = h.head_at in
      let t = h.tail_in in
      let n = h.bounded in
      elim (mod_cases (b.tail + length q) b.capacity (omega arith)) [
        | inl low ↦ elim (mod_cases (b.tail + i) b.capacity (omega arith)) [
          | inl low' ↦ omega (arith, same, e, low.1, low'.1, low.0, low'.0)
          | inr high' ↦ omega (arith, same, e, low.1, high'.1, low.0, high'.0)
        ]
        | inr high ↦ elim (mod_cases (b.tail + i) b.capacity (omega arith)) [
          | inl low' ↦ omega (arith, same, e, high.1, low'.1, high.0, low'.0)
          | inr high' ↦ omega (arith, same, e, high.1, high'.1, high.0, high'.0)
        ]
      ]
