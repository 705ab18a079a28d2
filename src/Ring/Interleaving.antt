-- ===== src/Ring/Interleaving.antt =====
-- Under every interleaving the lock-free ring hands the values over in order, each once.
use aiguard_siem.Common.{
  ℕ, ◌+◌, ◌%◌, ◌<◌, ◌≤◌, ◌≡◌, refl, sym, ap, ◌∙◌, ◌++◌, [], ◌∷◌, List, some, false, Bool-cases, inl,
  inr, ltb, arith, get_elem?, length, length-append, set, length-set, get_elem?-set_self,
  get_elem?-set_ne, ◌==◌, map,
}
use mathlib.Core.List.{append_assoc}
use native.Mathlib.Nat.{mod-eq_of_lt}
use aiguard_siem.Ring.Buffer.{RingBuffer, new_buffer}
use aiguard_siem.Ring.Slots.{get_elem?-append_left, get_elem?-snoc}
use aiguard_siem.Ring.Queue.{
  Holds, new_buffer-Holds, next_head, full_test, empty_test, head_in, slot_free,
}
use aiguard_siem.Ring.Refinement.{pop-Holds}
use aiguard_siem.Ring.Lockfree.{
  Producer, ready, storing, publishing, Consumer, idle, reading, leaving, Shared, push_act, pop_act,
  Turn, producer, consumer, interleave,
}

module _ {A : Type 0} where
  abbrev Room : RingBuffer A → List A → ℕ → Type 0
  Room b q n = (n ≡ (b.head + 1) % b.capacity) × (length q + 1 < b.capacity)

  -- What the producer knows stays true while the consumer moves on.
  abbrev WriterOk : RingBuffer A → List A → Producer A → Type 0
  WriterOk b q ready = Unit
  WriterOk b q (storing x n) = Room b q n
  WriterOk b q (publishing x n) = Room b q n × (get_elem? b.buffer b.head ≡ some x)

  abbrev ReaderOk : List A → Consumer A → Type 0
  ReaderOk q idle = Unit
  ReaderOk q reading = 0 < length q
  ReaderOk q (leaving v) = (0 < length q) × (get_elem? q 0 ≡ v)

  record Inv (p : Producer A) (c : Consumer A) (s : Shared A) (q : List A) : Type 0 where
    holds : Holds s.ring q
    order : map some s.sent ≡ s.received ++ map some q
    writer : WriterOk s.ring q p
    reader : ReaderOk q c

  store-Holds :
      (x : A) (b : RingBuffer A) (q : List A)
      → Holds b q
      → Holds (record b { buffer = set b.buffer b.head x }) q
  store-Holds x b q h = record {
    fits = length-set b.buffer b.head x ∙ h.fits;
    bounded = h.bounded;
    tail_in = h.tail_in;
    head_at = h.head_at;
    slot_at = λ i l. get_elem?-set_ne b.buffer x (slot_free b q i h l) ∙ h.slot_at i l;
  }

  publish-Holds :
      (x : A) (b : RingBuffer A) (q : List A)
      → Holds b q
      → length q + 1 < b.capacity
      → get_elem? b.buffer b.head ≡ some x
      → Holds (record b { head = (b.head + 1) % b.capacity }) (q ++ (x ∷ []))
  publish-Holds x b q h room w = record {
    fits = h.fits;
    bounded = omega (arith, length-append q (x ∷ []));
    tail_in = h.tail_in;
    head_at =
        next_head b q h ∙ ap (λ n. (b.tail + n) % b.capacity) (sym (length-append q (x ∷ [])));
    slot_at = λ i l. elim (Bool-cases (ltb i (length q))) [
      | inl old ↦
          let before : i < length q = ground arith in
          h.slot_at i before ∙ sym (get_elem?-append_left q (x ∷ []) i before)
      | inr new ↦
          let late : length q ≤ i = ground arith in
          let last : i ≡ length q = omega (arith, l, length-append q (x ∷ []), late) in
          ap (λ k. get_elem? b.buffer ((b.tail + k) % b.capacity)) last
          ∙ (ap (get_elem? b.buffer) (sym h.head_at)
              ∙ (w ∙ (sym (get_elem?-snoc q x) ∙ ap (get_elem? (q ++ (x ∷ []))) (sym last))))
    ];
  }

  map-snoc : (xs : List A) (x : A) → map some (xs ++ (x ∷ [])) ≡ map some xs ++ (some x ∷ [])
  map-snoc [] x = refl
  map-snoc (y ∷ xs) x = ap (◌∷◌ (some y)) (map-snoc xs x)

  reader_push : (q : List A) (x : A) (c : Consumer A) → ReaderOk q c → ReaderOk (q ++ (x ∷ [])) c
  reader_push q x idle r = tt
  reader_push q x reading r = omega (arith, length-append q (x ∷ []))
  reader_push q x (leaving v) r =
      (omega (arith, r.0, length-append q (x ∷ [])), get_elem?-append_left q (x ∷ []) 0 r.0 ∙ r.1)

  abbrev After : Consumer A → Producer A × Shared A → Type 0
  After c r = (q : List A) × Inv r.0 c r.1 q

  push_act-Inv :
      (x : A) (p : Producer A) (c : Consumer A) (s : Shared A) (q : List A)
      → Inv p c s q
      → After c (push_act x p s)
  unfolding push_act
  push_act-Inv x ready c s q i =
      elim (Bool-cases ((s.ring.head + 1) % s.ring.capacity == s.ring.tail)) [
        | inl full ↦ rw full ((q, i))
        | inr room ↦
            let t : (length q + 1 == s.ring.capacity) ≡ false =
              sym (full_test s.ring q i.holds) ∙ room in
            let n = i.holds.bounded in
            let space : length q + 1 < s.ring.capacity = ground arith in
            rw room (
              (
                q,
                record {
                  holds = i.holds;
                  order = i.order;
                  writer = (refl, space);
                  reader = i.reader;
                },
              ))
      ]
  push_act-Inv x (storing y n) c s q i =
      let place : s.ring.head < length s.ring.buffer =
        omega (arith, head_in s.ring q i.holds, i.holds.fits) in
      (
        q,
        record {
          holds = store-Holds y s.ring q i.holds;
          order = i.order;
          writer = (i.writer, get_elem?-set_self s.ring.buffer s.ring.head y place);
          reader = i.reader;
        },
      )
  push_act-Inv x (publishing y n) c s q i = (
    q ++ (y ∷ []),
    rw (i.writer.0.0) (record {
      holds = publish-Holds y s.ring q i.holds i.writer.0.1 i.writer.1;
      order =
          map-snoc s.sent y
          ∙ (ap (λ l. l ++ (some y ∷ [])) i.order
              ∙ (append_assoc s.received (map some q) (some y ∷ [])
                  ∙ ap (◌++◌ s.received) (sym (map-snoc q y))));
      writer = tt;
      reader = reader_push q y c i.reader;
    }),
  )

  abbrev AfterPop : Producer A → Consumer A × Shared A → Type 0
  AfterPop p r = (q : List A) × Inv p r.0 r.1 q

  writer_pop :
      (b : RingBuffer A) (y : A) (q : List A) (p : Producer A)
      → WriterOk b (y ∷ q) p
      → WriterOk (record b { tail = (b.tail + 1) % b.capacity }) q p
  writer_pop b y q ready w = tt
  writer_pop b y q (storing x n) w = (w.0, omega (arith, w.1))
  writer_pop b y q (publishing x n) w = ((w.0.0, omega (arith, w.0.1)), w.1)

  pop_act-Inv :
      (p : Producer A) (c : Consumer A) (s : Shared A) (q : List A)
      → Inv p c s q
      → AfterPop p (pop_act c s)
  unfolding pop_act
  pop_act-Inv p idle s q i = elim (Bool-cases (s.ring.head == s.ring.tail)) [
    | inl none_left ↦ rw none_left ((q, i))
    | inr some_left ↦
        let t : (length q == 0) ≡ false = sym (empty_test s.ring q i.holds) ∙ some_left in
        rw some_left (
          (
            q,
            record { holds = i.holds; order = i.order; writer = i.writer; reader = ground arith },
          ))
  ]
  pop_act-Inv p reading s q i =
      let start : (s.ring.tail + 0) % s.ring.capacity ≡ s.ring.tail =
        ap (λ k. k % s.ring.capacity) (omega arith) ∙ mod-eq_of_lt i.holds.tail_in in
      (
        q,
        record {
          holds = i.holds;
          order = i.order;
          writer = i.writer;
          reader = (
            i.reader,
            sym (ap (get_elem? s.ring.buffer) (sym start) ∙ i.holds.slot_at 0 i.reader),
          );
        },
      )
  pop_act-Inv p (leaving v) s [] i = absurd (omega (arith, i.reader.0))
  pop_act-Inv p (leaving v) s (y ∷ q) i = (
    q,
    record {
      holds = pop-Holds y s.ring q i.holds;
      order =
          i.order
          ∙ (ap (λ w. s.received ++ (w ∷ map some q)) i.reader.1
              ∙ sym (append_assoc s.received (v ∷ []) (map some q)));
      writer = writer_pop s.ring y q p i.writer;
      reader = tt;
    },
  )

  -- What is in flight: the values of the ring, after those received, are those sent.
  pub record InOrder (s : Shared A) (q : List A) : Type 0 where
    pub in_ring : Holds s.ring q
    pub in_order : map some s.sent ≡ s.received ++ map some q

  interleave_lem :
      (turns : List (Turn A)) (p : Producer A) (c : Consumer A) (s : Shared A) (q : List A)
      → Inv p c s q
      → (q' : List A) × InOrder (interleave turns p c s) q'
  interleave_lem [] p c s q i = (q, record { in_ring = i.holds; in_order = i.order })
  interleave_lem (producer x ∷ turns) p c s q i =
      let (q', i') = push_act-Inv x p c s q i in
      interleave_lem turns (push_act x p s).0 c (push_act x p s).1 q' i'
  interleave_lem (consumer ∷ turns) p c s q i =
      let (q', i') = pop_act-Inv p c s q i in
      interleave_lem turns p (pop_act c s).0 (pop_act c s).1 q' i'

  -- However the accesses of one producer and one consumer of a new lock-free ring interleave, the
  -- values received are the first of those sent, in order, and the rest is in the ring: no value is
  -- lost, doubled, reordered, or read before it is written.
  pub interleave-InOrder :
      (turns : List (Turn A)) (capacity : ℕ) (blank : A)
      → 0 < capacity
      → let start : Shared A = record {
        ring = new_buffer capacity blank;
        sent = [];
        received = [];
      } in
        (q : List A) × InOrder (interleave turns ready idle start) q
  interleave-InOrder turns capacity blank h =
      interleave_lem turns ready idle _ [] (record {
        holds = new_buffer-Holds capacity blank h;
        order = refl;
        writer = tt;
        reader = tt;
      })
