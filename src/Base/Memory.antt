-- ===== src/Base/Memory.antt =====
-- The error codes of include/libmpq/mpq.h, results with faults, and C buffers as lists of bytes.
use Prim.Native.Nat.{ℕ, zero, suc, ◌+◌, ◌≤◌}
use mathlib.Core.Path.{◌≡◌, refl, sym}
use mathlib.Core.Bool.{Bool, true, false}
use mathlib.Core.Option.{Option, none, some}
use mathlib.Core.List.{List, [], ◌∷◌, ◌++◌}
use native.Mathlib.Omega.{arith}
use libmpq.Base.Tests.{leb, if◌then◌else◌, le→leb}
use libmpq.Base.Lists.{
  length, take, drop, length-append, take-append, drop-append, take-append-drop, length-take,
}

pub data Error : Type 0 where
  open_error close_error seek_error read_error write_error malloc_error format_error : Error
  not_initialized size_error exist_error decrypt_error unpack_error : Error

-- `fault` is a read or a write outside the buffer, which C leaves undefined.
pub data Outcome {ℓ} (A : Type ℓ) : Type ℓ where
  ok : A → Outcome A
  err : Error → Outcome A
  fault : Outcome A

infixl 5 ◌>>=◌
abbrev pub ◌>>=◌ {ℓ κ} : {A : Type ℓ} {B : Type κ} → Outcome A → (A → Outcome B) → Outcome B
ok a >>= f = f a
err e >>= f = err e
fault >>= f = fault

abbrev pub or_fault {ℓ} : {A : Type ℓ} → Option A → Outcome A
or_fault none = fault
or_fault (some a) = ok a

abbrev pub map_ok {ℓ κ} : {A : Type ℓ} {B : Type κ} → (A → B) → Outcome A → Outcome B
map_ok f (ok a) = ok (f a)
map_ok f (err e) = err e
map_ok f fault = fault

-- Inversion of a successful bind.
pub >>=-eq-ok {ℓ κ} :
    {A : Type ℓ} {B : Type κ} (run : Outcome A) (next : A → Outcome B) {result : B}
    → (run >>= next) ≡ ok result
    → (value : A) × (run ≡ ok value) × (next value ≡ ok result)
>>=-eq-ok (ok value) next done = (value, refl, done)
>>=-eq-ok (err code) next done = cc
>>=-eq-ok fault next done = cc

-- A pointer is NULL or the bytes from its address to the end of its object.
abbrev pub Pointer : Type 0
Pointer = Option (List ℕ)

abbrev pub is_null {ℓ} : {A : Type ℓ} → Option A → Bool
is_null none = true
is_null (some _) = false

-- `pointer + k`.
abbrev pub advance : Pointer → ℕ → Pointer
advance none k = none
advance (some buf) k = some (drop k buf)

-- Run an operation on the memory that begins at offset `k` of a buffer.
abbrev pub at_offset {ℓ} :
    {A : Type ℓ} → ℕ → (List A → Outcome (List A)) → List A → Outcome (List A)
at_offset zero f buf = f buf
at_offset (suc k) f [] = fault
at_offset (suc k) f (b ∷ buf) = map_ok (λ rest. b ∷ rest) (at_offset k f buf)

-- The `n` elements from offset `i` on, as `memcpy` reads them.
unfoldable pub read_range {ℓ} : {A : Type ℓ} → List A → ℕ → ℕ → Outcome (List A)
read_range buf i n = if leb (i + n) (length buf) then ok (take n (drop i buf)) else fault

-- `memcpy` or `memset` to offset `i`.
unfoldable pub write_range {ℓ} : {A : Type ℓ} → List A → ℕ → List A → Outcome (List A)
write_range buf i new =
    if leb (i + length new) (length buf)
    then ok (take i buf ++ (new ++ drop (length new) (drop i buf)))
    else fault

module _ {ℓ} {A : Type ℓ} where
  pub read_range_mid :
      (front mid back : List A) (i n : ℕ)
      → i ≡ length front
      → n ≡ length mid
      → read_range (front ++ (mid ++ back)) i n ≡ ok mid
  unfolding read_range
  read_range_mid front mid back i n hi hn = rw (
    hi,
    hn,
    drop-append front (mid ++ back),
    take-append mid back,
    le→leb (length front + length mid) (length (front ++ (mid ++ back)))
        (omega (arith, length-append front (mid ++ back), length-append mid back)),
  )

  -- A write over the bytes `old` in the middle of a buffer.
  pub write_range_mid :
      (front old new back : List A) (i : ℕ)
      → i ≡ length front
      → length new ≡ length old
      → write_range (front ++ (old ++ back)) i new ≡ ok (front ++ (new ++ back))
  unfolding write_range
  write_range_mid front old new back i hi hn = rw (
    hi,
    hn,
    take-append front (old ++ back),
    drop-append front (old ++ back),
    drop-append old back,
    le→leb (length front + length old) (length (front ++ (old ++ back)))
        (omega (arith, length-append front (old ++ back), length-append old back)),
  )

  pub split_at :
      (k : ℕ) (xs : List A)
      → k ≤ length xs
      → (front back : List A) × (xs ≡ front ++ back) × (length front ≡ k)
  split_at k xs h =
      (take k xs, drop k xs, sym (take-append-drop k xs), omega (arith, length-take k xs))

  pub at_offset-append :
      (front back : List A) (k : ℕ) (f : List A → Outcome (List A)) {new : List A}
      → k ≡ length front
      → f back ≡ ok new
      → at_offset k f (front ++ back) ≡ ok (front ++ new)
  at_offset-append [] back zero f h e = e
  at_offset-append [] back (suc k) f h e = absurd (omega arith)
  at_offset-append (x ∷ front) back zero f h e = absurd (omega arith)
  at_offset-append (x ∷ front) back (suc k) f h e =
      rw (at_offset-append front back k f (omega arith) e)
