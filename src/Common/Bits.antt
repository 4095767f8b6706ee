-- ===== src/Common/Bits.antt =====
-- Bytes as bits: laws of `bit_and`, `bit_or` and the complement at variables, from the recursion on
-- binary digits that the native operations stand for.
use Prim.Native.Nat.{digits, bitwise, max, bit_and-bitwise, bit_or-bitwise}
use native.Mathlib.Nat.{le_refl, pow-suc, one-le-pow}
use platform_event_filter.Common.Words.{
  ℕ, zero, suc, ◌+◌, ◌-◌, ◌*◌, ◌/◌, ◌%◌, ◌^◌, ◌≤◌, ◌<◌, min, bit_and, bit_or, ◌≡◌, refl, ◌≢◌, true,
  false, not, ◌&&◌, ◌||◌, arith, ap, ◌∙◌, Bool-cases, inl, inr, if◌then◌else◌, odd, bit,
}

module _ (rest : ℕ → ℕ) (op : ℕ → ℕ → ℕ) where
  -- A count of digits that covers the number may be one larger.
  one_more : (n x y : ℕ) → x ≤ n → digits rest op (suc n) x y ≡ digits rest op n x y
  one_more zero zero y h = refl
  one_more (suc n) zero y h = refl
  one_more zero (suc x) y h = absurd (omega arith)
  one_more (suc n) (suc x) y h = rw (one_more n (suc x / 2) (y / 2) (omega arith))

  spare : (gap n x y : ℕ) → n ≡ x + gap → digits rest op n x y ≡ digits rest op x x y
  spare zero n x y e = ap (λ m. digits rest op m x y) (omega arith)
  spare (suc gap) zero x y e = absurd (omega arith)
  spare (suc gap) (suc n) x y e = one_more n x y (omega arith) ∙ spare gap n x y (omega arith)

  first_digit :
      (x y : ℕ)
      → bitwise rest op (suc x) y ≡ op (suc x % 2) (y % 2) + 2 * bitwise rest op (suc x / 2) (y / 2)
  first_digit x y = omega (arith, spare (x - suc x / 2) x (suc x / 2) (y / 2) (omega arith))

bit_or_step : (x y : ℕ) → bit_or x y ≡ max (x % 2) (y % 2) + 2 * bit_or (x / 2) (y / 2)
bit_or_step zero y = simp bit_or-bitwise (omega arith)
bit_or_step (suc x) y = simp bit_or-bitwise (first_digit (λ r. r) max x y)

bit_and_step : (x y : ℕ) → bit_and x y ≡ min (x % 2) (y % 2) + 2 * bit_and (x / 2) (y / 2)
bit_and_step zero y = simp bit_and-bitwise (omega arith)
bit_and_step (suc x) y = simp bit_and-bitwise (first_digit (λ r. 0) min x y)

bit_and_half : (a b : ℕ) → bit_and a b / 2 ≡ bit_and (a / 2) (b / 2)
bit_and_half a b = omega (arith, bit_and_step a b)

bit_or_half : (a b : ℕ) → bit_or a b / 2 ≡ bit_or (a / 2) (b / 2)
bit_or_half a b = omega (arith, bit_or_step a b)

-- Bit `k` of a conjunction and of a disjunction.
pub bit-bit_and : (k a b : ℕ) → bit k (bit_and a b) ≡ (bit k a && bit k b)
unfolding bit
bit-bit_and zero a b = ground (arith, bit_and_step a b)
bit-bit_and (suc k) a b = rw (bit_and_half a b) (bit-bit_and k (a / 2) (b / 2))

pub bit-bit_or : (k a b : ℕ) → bit k (bit_or a b) ≡ (bit k a || bit k b)
unfolding bit
bit-bit_or zero a b = ground (arith, bit_or_step a b)
bit-bit_or (suc k) a b = rw (bit_or_half a b) (bit-bit_or k (a / 2) (b / 2))

bit_and-lt_pow : (n a b : ℕ) → a < 2 ^ n → bit_and a b < 2 ^ n
bit_and-lt_pow zero a b h = let e : a ≡ 0 = omega arith in rw (e, bit_and-bitwise) (omega arith)
bit_and-lt_pow (suc n) a b h = omega (
  arith,
  bit_and_step a b,
  pow-suc 2 n,
  bit_and-lt_pow n (a / 2) (b / 2) (omega (arith, pow-suc 2 n)),
)

bit_or-lt_pow : (n a b : ℕ) → a < 2 ^ n → b < 2 ^ n → bit_or a b < 2 ^ n
bit_or-lt_pow zero a b h k =
    let e : a ≡ 0 = omega arith in let e' : b ≡ 0 = omega arith in rw (e, e') (omega arith)
bit_or-lt_pow (suc n) a b h k = omega (
  arith,
  bit_or_step a b,
  pow-suc 2 n,
  bit_or-lt_pow n (a / 2) (b / 2) (omega (arith, pow-suc 2 n)) (omega (arith, pow-suc 2 n)),
)

pub bit_and-lt : (a b : ℕ) → a < 256 → bit_and a b < 256
bit_and-lt = bit_and-lt_pow 8

pub bit_or-lt : (a b : ℕ) → a < 256 → b < 256 → bit_or a b < 256
bit_or-lt = bit_or-lt_pow 8

bit-complement_pow : (n k a : ℕ) → a < 2 ^ n → k < n → bit k (2 ^ n - 1 - a) ≡ not (bit k a)
unfolding bit
bit-complement_pow zero k a h l = elim l [ ]
bit-complement_pow (suc n) zero a h l = ground (arith, pow-suc 2 n, one-le-pow n 2)
bit-complement_pow (suc n) (suc k) a h l =
    let half : (2 ^ suc n - 1 - a) / 2 ≡ 2 ^ n - 1 - a / 2 = omega (arith, pow-suc 2 n) in
    rw half (bit-complement_pow n k (a / 2) (omega (arith, pow-suc 2 n)) (omega arith))

-- The complement of a byte.
pub bit-complement : (k a : ℕ) → a < 256 → k < 8 → bit k (255 - a) ≡ not (bit k a)
bit-complement k a h l = bit-complement_pow 8 k a h l

eq_of_bits_pow : (n a b : ℕ) → a < 2 ^ n → b < 2 ^ n → ((k : ℕ) → k < n → bit k a ≡ bit k b) → a ≡ b
unfolding bit
eq_of_bits_pow zero a b h k same = omega arith
eq_of_bits_pow (suc n) a b h k same =
    let halves : a / 2 ≡ b / 2 =
      eq_of_bits_pow n (a / 2) (b / 2) (omega (arith, pow-suc 2 n)) (omega (arith, pow-suc 2 n))
        (λ j l. same (suc j) (omega arith)) in
    ground (arith, same 0 (omega arith))

-- Two bytes with the same bits are equal.
pub eq_of_bits : (a b : ℕ) → a < 256 → b < 256 → ((k : ℕ) → k < 8 → bit k a ≡ bit k b) → a ≡ b
eq_of_bits = eq_of_bits_pow 8

some_bit_pow : (n a : ℕ) → a < 2 ^ n → a ≢ 0 → (k : ℕ) × (k < n) × (bit k a ≡ true)
unfolding bit
some_bit_pow zero a h ne = absurd (ne (omega arith))
some_bit_pow (suc n) a h ne = elim (Bool-cases (odd a)) [
  | inl e ↦ (0, omega arith, e)
  | inr e ↦
      let (k, l, set) =
        some_bit_pow n (a / 2) (omega (arith, pow-suc 2 n)) (λ z. ne (ground arith)) in
      (suc k, omega arith, set)
]

-- A byte that is not zero has a bit that is set.
pub some_bit : (a : ℕ) → a < 256 → a ≢ 0 → (k : ℕ) × (k < 8) × (bit k a ≡ true)
some_bit = some_bit_pow 8

-- Zero has none.
pub bit-zero : (k : ℕ) → bit k 0 ≡ false
unfolding bit
bit-zero zero = refl
bit-zero (suc k) = bit-zero k

-- A byte of ones has all.
pub bit-ones : (k : ℕ) → k < 8 → bit k 255 ≡ true
bit-ones k l = bit-complement k 0 (omega arith) l ∙ ap not (bit-zero k)

half_pow : (k : ℕ) → 2 ^ suc k / 2 ≡ 2 ^ k
half_pow k = omega (arith, pow-suc 2 k)

bit_and-zero : (n a : ℕ) → a ≤ n → bit_and a 0 ≡ 0
bit_and-zero n zero h = bit_and-bitwise 0 0
bit_and-zero zero (suc a) h = absurd (omega arith)
bit_and-zero (suc n) (suc a) h =
    omega (arith, bit_and_step (suc a) 0, bit_and-zero n (suc a / 2) (omega arith))

zero-bit_and : (a : ℕ) → bit_and 0 a ≡ 0
zero-bit_and a = bit_and-bitwise 0 a

-- A mask of one bit tests that bit.
pub bit_and_single : (k a : ℕ) → bit_and a (2 ^ k) ≡ (if bit k a then 2 ^ k else 0)
unfolding bit
bit_and_single zero a = ground (arith, bit_and_step a 1, bit_and-zero (a / 2) (a / 2) (le_refl _))
bit_and_single (suc k) a = ground (
  arith,
  bit_and_step a (2 ^ suc k),
  half_pow k,
  pow-suc 2 k,
  ap (bit_and (a / 2)) (half_pow k),
  bit_and_single k (a / 2),
)

pub single_bit_and : (k a : ℕ) → bit_and (2 ^ k) a ≡ (if bit k a then 2 ^ k else 0)
unfolding bit
single_bit_and zero a = ground (arith, bit_and_step 1 a, zero-bit_and (a / 2))
single_bit_and (suc k) a = ground (
  arith,
  bit_and_step (2 ^ suc k) a,
  half_pow k,
  pow-suc 2 k,
  ap (λ (t : ℕ). bit_and t (a / 2)) (half_pow k),
  single_bit_and k (a / 2),
)

-- A mask of the low four bits is the remainder by 16.
pub bit_and_low : (a : ℕ) → bit_and a 0x0f ≡ a % 16
bit_and_low a = omega (
  arith,
  bit_and_step a 15,
  bit_and_step (a / 2) 7,
  bit_and_step (a / 2 / 2) 3,
  bit_and_step (a / 2 / 2 / 2) 1,
  bit_and-zero (a / 2 / 2 / 2 / 2) (a / 2 / 2 / 2 / 2) (le_refl _),
)

pub bit_and_byte : (a : ℕ) → bit_and a 0xff ≡ a % 256
bit_and_byte a = omega (
  arith,
  bit_and_step a 255,
  bit_and_step (a / 2) 127,
  bit_and_step (a / 2 / 2) 63,
  bit_and_step (a / 2 / 2 / 2) 31,
  bit_and_low (a / 2 / 2 / 2 / 2),
)
