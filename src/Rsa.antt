-- ===== src/Rsa.antt =====
-- The modular arithmetic of src/mpq-rsa.c. A number is the list of its bytes, the low one first; the
-- arrays of the source are the lists of their first `size` bytes. What `libmpq__rsa_clear` wipes is
-- not read again.
pub mod Limbs
pub mod Digits
pub mod Multiply
pub mod Order
pub mod Power
pub mod Weak
pub mod Public
pub mod Key
pub mod Strong
mod Runs
use libmpq.Base.{
  ℕ, zero, suc, ◌+◌, ◌-◌, ◌*◌, ◌/◌, ◌%◌, ◌^◌, bit_and, bit_or, bit_xor, Bool, true, false, ◌&&◌,
  ◌||◌, not, List, [], ◌∷◌, none, some, Pointer, Outcome, ok, err, fault, format_error, or_fault,
  ◌>>=◌, get_elem?, read_range, replicate, length, ltb, ◌==◌, ◌>>>◌, u8, u32, if◌then◌else◌,
}

-- `0u - x`, and `~x`, of a `uint32_t`.
abbrev pub negate : ℕ → ℕ
negate x = u32 (2 ^ 32 - x)

abbrev pub complement : ℕ → ℕ
complement x = 2 ^ 32 - 1 - x

-- The first loop: `sum`, and the last `carry`.
unfoldable pub add_loop : List ℕ → List ℕ → ℕ → List ℕ × ℕ
add_loop (a ∷ a_rest) (b ∷ bs) carry =
    let value = u32 (a + b + carry) in
    let rest = add_loop a_rest bs (value >>> 8) in (u8 value ∷ rest.0, rest.1)
add_loop _ _ carry = ([], carry)

-- The second loop: `reduced`, and the last `borrow`.
unfoldable pub subtract_loop : List ℕ → List ℕ → ℕ → List ℕ × ℕ
subtract_loop (s ∷ ss) (n ∷ ns) borrow =
    let value = u32 (s + (2 ^ 32 - n) + (2 ^ 32 - borrow)) in
    let rest = subtract_loop ss ns (value >>> 31) in (u8 value ∷ rest.0, rest.1)
subtract_loop _ _ borrow = ([], borrow)

-- `(uint8_t)((x[i] & mask) | (y[i] & ~mask))`.
unfoldable pub select_loop : ℕ → List ℕ → List ℕ → List ℕ
select_loop mask (x ∷ xs) (y ∷ ys) =
    u8 (bit_or (bit_and x mask) (bit_and y (complement mask))) ∷ select_loop mask xs ys
select_loop mask _ _ = []

-- LIBMPQ_RSA_MAX_SIZE, the length of the arrays `sum`, `reduced` and `result`.
abbrev pub rsa_max_size : ℕ
rsa_max_size = 256

-- The three loops, on arrays that hold `size` bytes.
unfoldable pub add_reduced : List ℕ → List ℕ → List ℕ → List ℕ
add_reduced a b n =
    let added = add_loop a b 0 in
    let reduced = subtract_loop added.0 n 0 in
    let mask = negate (bit_or added.1 (bit_xor reduced.1 1)) in select_loop mask reduced.0 added.0

-- A `size` above theirs makes the loops write behind the arrays.
unfoldable pub add_mod : List ℕ → List ℕ → List ℕ → Outcome (List ℕ)
add_mod a b n = if ltb rsa_max_size (length n) then fault else ok (add_reduced a b n)

-- The rounds from `bit` down, for the number `result`.
pub multiply_loop : ℕ → List ℕ → List ℕ → List ℕ → List ℕ → Outcome (List ℕ)
multiply_loop zero a b n result = ok result
multiply_loop (suc bit) a b n result = do
  limb ← or_fault (get_elem? b (bit / 8))
  let mask = negate (bit_and (limb >>> (bit % 8)) 1)
  doubled ← add_mod result result n
  sum ← add_mod doubled a n
  multiply_loop bit a b n (select_loop mask sum doubled)

pub multiply : List ℕ → List ℕ → List ℕ → Outcome (List ℕ)
multiply a b n =
    if ltb rsa_max_size (length n)
    then fault
    else multiply_loop (length n * 8) a b n (replicate (length n) 0)

-- `memcmp(a, b, size) < 0`.
pub below : List ℕ → List ℕ → Bool
below (a ∷ a_rest) (b ∷ bs) = if a == b then below a_rest bs else ltb a b
below _ _ = false

-- The copies from and to the byte order of the keys.
pub reverse_into : List ℕ → List ℕ → List ℕ
reverse_into [] acc = acc
reverse_into (x ∷ xs) acc = reverse_into xs (x ∷ acc)

abbrev pub rsa_size : ℕ
rsa_size = 64

-- The rounds from `bit` on, of which `left` are left.
pub power_loop : ℕ → ℕ → List ℕ → List ℕ → List ℕ → List ℕ → Outcome (List ℕ)
power_loop zero bit exponent base n result = ok result
power_loop (suc left) bit exponent base n result = do
  limb ← or_fault (get_elem? exponent (bit / 8))
  let mask = negate (bit_and (limb >>> (7 - bit % 8)) 1)
  squared ← multiply result result n
  product ← multiply squared base n
  power_loop left (bit + 1) exponent base n (select_loop mask product squared)

pub weak_operation : List ℕ → List ℕ → Outcome (List ℕ)
weak_operation key input = do
  modulus ← read_range key 0 rsa_size
  base ← read_range input 0 rsa_size
  (if not (below base modulus) then err format_error else (do
    exponent ← read_range key rsa_size rsa_size
    result ←
        power_loop (rsa_size * 8) 0 exponent (reverse_into base []) (reverse_into modulus [])
          (1 ∷ replicate (rsa_size - 1) 0)
    ok (reverse_into result [])))

abbrev pub strong_size : ℕ
strong_size = 256

-- `small |= key[i]` over the bytes of the exponent but the last.
pub any_bits : List ℕ → ℕ → ℕ
any_bits [] small = small
any_bits (b ∷ bytes) small = any_bits bytes (bit_or small b)

-- From the test of `small` on.
pub validate_exponent : List ℕ → ℕ → ℕ → ℕ → Outcome (Unit {0})
validate_exponent key key_size modulus_size low = do
  middle ← read_range key modulus_size (key_size - 1 - modulus_size)
  modulus ← read_range key 0 modulus_size
  exponent ← read_range key modulus_size modulus_size
  (if ((any_bits middle 0 == 0) && ltb low 3) || not (below exponent modulus)
      then err format_error
      else ok tt)

pub rsa_key_validate : Pointer → ℕ → ℕ → Outcome (Unit {0})
rsa_key_validate none key_size modulus_size = err format_error
rsa_key_validate (some key) key_size modulus_size =
    if (modulus_size == 0) || ltb strong_size modulus_size || not (key_size == 2 * modulus_size)
    then err format_error
    else (do
      first ← or_fault (get_elem? key 0)
      last ← or_fault (get_elem? key (modulus_size - 1))
      low ← or_fault (get_elem? key (key_size - 1))
      (if (bit_and first 0x80 == 0) || (bit_and last 1 == 0) || (bit_and low 1 == 0)
          then err format_error
          else validate_exponent key key_size modulus_size low))

-- One round: `set` is the bit of the exponent, the results are `result` and `started`.
pub public_round : ℕ → List ℕ → List ℕ → List ℕ → Bool → Outcome (List ℕ × Bool)
public_round set base n result false =
    if set == 0 then ok (result, false) else (do first ← multiply result base n; ok (first, true))
public_round set base n result true = do
  squared ← multiply result result n
  (if set == 0
      then ok (squared, true)
      else (do product ← multiply squared base n; ok (product, true)))

-- The rounds from `bit` on, of which `left` are left.
pub public_loop : ℕ → ℕ → List ℕ → List ℕ → List ℕ → List ℕ → Bool → Outcome (List ℕ × Bool)
public_loop zero bit exponent base n result started = ok (result, started)
public_loop (suc left) bit exponent base n result started = do
  limb ← or_fault (get_elem? exponent (bit / 8))
  let set = bit_and (limb >>> (7 - bit % 8)) 1
  (result', started') ← public_round set base n result started
  public_loop left (bit + 1) exponent base n result' started'

pub strong_public_operation : Pointer → Pointer → Outcome (List ℕ)
strong_public_operation none input = err format_error
strong_public_operation (some key) none = err format_error
strong_public_operation (some key) (some input) = do
  _ ← rsa_key_validate (some key) (2 * strong_size) strong_size
  modulus ← read_range key 0 strong_size
  base ← read_range input 0 strong_size
  (if not (below base modulus) then err format_error else (do
    exponent ← read_range key strong_size strong_size
    (result, started) ←
        public_loop (strong_size * 8) 0 exponent (reverse_into base []) (reverse_into modulus [])
          (1 ∷ replicate (strong_size - 1) 0) false
    (if started then ok (reverse_into result []) else err format_error)))
