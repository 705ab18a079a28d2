-- ===== src/Ring/Buffer.antt =====
-- collectors/common/include/aiguard/common/circular_buffer.h: the ring of `ConcurrentRingBuffer`, whose
-- lock makes each method one step. The capacity is a power of two, so that `& mask_` is the remainder
-- by it. (`full` is of the lock-free ring, whose indices mean the same.)
use aiguard_siem.Common.{
  ℕ, ◌+◌, ◌-◌, ◌%◌, ◌^◌, Bool, true, false, none, Option, List, if◌then◌else◌, ◌==◌, get_elem?, set,
  replicate,
}

pub record RingBuffer (A : Type 0) : Type 0 where
  pub capacity : ℕ
  pub buffer : List A
  pub head : ℕ
  pub tail : ℕ

module _ {A : Type 0} where
  -- `blank` stands for what the slots hold before anything is written.
  abbrev pub new_buffer : ℕ → A → RingBuffer A
  new_buffer capacity blank = record {
    capacity = capacity;
    buffer = replicate capacity blank;
    head = 0;
    tail = 0;
  }

  unfoldable pub try_push : A → RingBuffer A → RingBuffer A × Bool
  try_push value b =
      let next_head : ℕ = (b.head + 1) % b.capacity in
      if next_head == b.tail
      then (b, false)
      else (record b { buffer = set b.buffer b.head value; head = next_head }, true)

  unfoldable pub try_pop : RingBuffer A → RingBuffer A × Option A
  try_pop b =
      if b.head == b.tail
      then (b, none)
      else (record b { tail = (b.tail + 1) % b.capacity }, get_elem? b.buffer b.tail)

  unfoldable pub empty : RingBuffer A → Bool
  empty b = b.head == b.tail

  unfoldable pub full : RingBuffer A → Bool
  full b = (b.head + 1) % b.capacity == b.tail

  -- The difference wraps as a `size_t`.
  unfoldable pub size : RingBuffer A → ℕ
  size b = (b.head + 2 ^ 64 - b.tail) % 2 ^ 64 % b.capacity
