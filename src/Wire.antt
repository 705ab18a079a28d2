-- ===== src/Wire.antt =====
-- Reading numbers out of bytes, as the parsers of packets and files do by `memcpy`, by casts of an
-- address and by `ifstream::read`. The host is little-endian.
use aiguard_siem.Common.{
  ℕ, ◌+◌, ◌*◌, ◌≤◌, ◌≡◌, refl, Bool, true, false, [], ◌∷◌, if◌then◌else◌, length, leb, take, drop,
  arith, Text,
}

-- How a call ends: with a result, by a memory access out of bounds, or not at all within the fuel.
pub data Outcome {ℓ} (A : Type ℓ) : Type ℓ where
  ok : A → Outcome A
  fault : Outcome A
  out_of_fuel : Outcome A

infixl 5 ◌>>=◌
abbrev pub ◌>>=◌ {ℓ κ} : {A : Type ℓ} {B : Type κ} → Outcome A → (A → Outcome B) → Outcome B
ok a >>= f = f a
fault >>= f = fault
out_of_fuel >>= f = out_of_fuel

-- The `n` bytes from `off`.
unfoldable pub load : Text → ℕ → ℕ → Outcome Text
load bytes off n = if leb (off + n) (length bytes) then ok (take n (drop off bytes)) else fault

pub load_in_bounds :
    (bytes : Text) (off n : ℕ)
    → off + n ≤ length bytes
    → load bytes off n ≡ ok (take n (drop off bytes))
unfolding load
load_in_bounds bytes off n h = ground arith

-- The number that little-endian bytes stand for: what the host reads.
unfoldable pub le : Text → ℕ
le [] = 0
le (b ∷ bs) = b + 256 * le bs

-- The number that big-endian bytes stand for: what the host reads, after `ntohs` or `ntohl`.
unfoldable pub be_from : ℕ → Text → ℕ
be_from n [] = n
be_from n (b ∷ bs) = be_from (n * 256 + b) bs

unfoldable pub be : Text → ℕ
unfolding be_from
be bs = be_from 0 bs

-- `n` bytes of a struct, from `off`.
abbrev pub field : Text → ℕ → ℕ → Text
field bytes off n = take n (drop off bytes)

-- The call returns.
abbrev pub IsOk : {A : Type 0} → Outcome A → Type 0
IsOk (ok a) = Unit
IsOk fault = ⊥
IsOk out_of_fuel = ⊥

pub load-IsOk :
    {A : Type 0} (bytes : Text) (off n : ℕ) (f : Text → Outcome A)
    → off + n ≤ length bytes
    → ((x : Text) → IsOk (f x))
    → IsOk (load bytes off n >>= f)
load-IsOk bytes off n f h k = rw (load_in_bounds bytes off n h) (k (take n (drop off bytes)))

pub if-IsOk :
    {A : Type 0} (b : Bool) (x y : Outcome A)
    → (b ≡ true → IsOk x)
    → (b ≡ false → IsOk y)
    → IsOk (if b then x else y)
if-IsOk true x y f g = f refl
if-IsOk false x y f g = g refl

-- The call returns a result with the property.
abbrev pub Gives : {A : Type 0} → (A → Type 0) → Outcome A → Type 0
Gives P (ok a) = P a
Gives P fault = ⊥
Gives P out_of_fuel = ⊥

pub IsOk-cases : {A : Type 0} (o : Outcome A) → IsOk o → (a : A) × (o ≡ ok a)
IsOk-cases (ok a) h = (a, refl)
IsOk-cases fault h = absurd h
IsOk-cases out_of_fuel h = absurd h

pub bind-Gives :
    {A B : Type 0} (P : A → Type 0) (Q : B → Type 0) (o : Outcome A) (f : A → Outcome B)
    → Gives P o
    → ((a : A) → P a → Gives Q (f a))
    → Gives Q (o >>= f)
bind-Gives P Q (ok a) f h k = k a h
bind-Gives P Q fault f h k = absurd h
bind-Gives P Q out_of_fuel f h k = absurd h

pub Gives-mono :
    {A : Type 0} (P Q : A → Type 0) (o : Outcome A) → Gives P o → ((a : A) → P a → Q a) → Gives Q o
Gives-mono P Q (ok a) h k = k a h
Gives-mono P Q fault h k = h
Gives-mono P Q out_of_fuel h k = h
