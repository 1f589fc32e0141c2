-- ===== src/Base/Bits.antt =====
-- Binary digits: `&` and `|` digit by digit, the complement, and the number of ones.
use Prim.Native.Nat.{
  ℕ, zero, suc, ◌+◌, ◌-◌, ◌*◌, ◌/◌, ◌%◌, ◌^◌, ◌≤◌, ◌<◌, min, max, bit_and, bit_or, digits,
  bit_and-bitwise, bit_or-bitwise,
}
use mathlib.Core.Path.{◌≡◌, refl, ap, ◌∙◌}
use mathlib.Core.Logic.{◌⊎◌, inl, inr}
use native.Mathlib.Omega.{arith}
use native.Mathlib.Nat.{pow-suc, one-le-pow}

-- Any count that is large enough gives the same digits.
digits_enough :
    (z : ℕ → ℕ) (f : ℕ → ℕ → ℕ) (n m a b : ℕ) → a ≤ n → a ≤ m → digits z f n a b ≡ digits z f m a b
digits_enough z f zero zero a b h k = refl
digits_enough z f zero (suc m) zero b h k = refl
digits_enough z f zero (suc m) (suc a) b h k = absurd (omega arith)
digits_enough z f (suc n) zero zero b h k = refl
digits_enough z f (suc n) zero (suc a) b h k = absurd (omega arith)
digits_enough z f (suc n) (suc m) zero b h k = refl
digits_enough z f (suc n) (suc m) (suc a) b h k =
    ap (λ q. q * 2 + f (suc a % 2) (b % 2))
      (digits_enough z f n m (suc a / 2) (b / 2) (omega arith) (omega arith))

-- One digit of `&` and of `|`.
pub and-halves : (a b : ℕ) → bit_and a b ≡ bit_and (a / 2) (b / 2) * 2 + min (a % 2) (b % 2)
and-halves zero b = omega (arith, bit_and-bitwise 0 b, bit_and-bitwise 0 (b / 2))
and-halves (suc a) b = omega (
  arith,
  bit_and-bitwise (suc a) b,
  bit_and-bitwise (suc a / 2) (b / 2),
  digits_enough (λ c. zero) min a (suc a / 2) (suc a / 2) (b / 2) (omega arith) (omega arith),
)

pub or-halves : (a b : ℕ) → bit_or a b ≡ bit_or (a / 2) (b / 2) * 2 + max (a % 2) (b % 2)
or-halves zero b = omega (arith, bit_or-bitwise 0 b, bit_or-bitwise 0 (b / 2))
or-halves (suc a) b = omega (
  arith,
  bit_or-bitwise (suc a) b,
  bit_or-bitwise (suc a / 2) (b / 2),
  digits_enough (λ c. c) max a (suc a / 2) (suc a / 2) (b / 2) (omega arith) (omega arith),
)

and-le_below : (k a b : ℕ) → a ≤ k → bit_and a b ≤ a
and-le_below zero a b h = omega (arith, and-halves a b, and-zero)
  where
    and-zero : bit_and a b ≡ 0
    and-zero = let e : a ≡ 0 = omega arith in rw e (bit_and-bitwise 0 b)
and-le_below (suc k) zero b h = rw (bit_and-bitwise 0 b) (omega arith)
and-le_below (suc k) (suc a) b h =
    omega (arith, and-halves (suc a) b, and-le_below k (suc a / 2) (b / 2) (omega arith))

pub and-le : (a b : ℕ) → bit_and a b ≤ a
and-le a b = and-le_below a a b (omega arith)

-- The digit of weight 2 ^ i.
abbrev pub bit : ℕ → ℕ → ℕ
bit n zero = n % 2
bit n (suc i) = bit (n / 2) i

pub bit-and : (i a b : ℕ) → bit (bit_and a b) i ≡ min (bit a i) (bit b i)
bit-and zero a b = omega (arith, and-halves a b)
bit-and (suc i) a b =
    let h : bit_and a b / 2 ≡ bit_and (a / 2) (b / 2) = omega (arith, and-halves a b) in
    ap (λ n. bit n i) h ∙ bit-and i (a / 2) (b / 2)

pub bit-or : (i a b : ℕ) → bit (bit_or a b) i ≡ max (bit a i) (bit b i)
bit-or zero a b = omega (arith, or-halves a b)
bit-or (suc i) a b =
    let h : bit_or a b / 2 ≡ bit_or (a / 2) (b / 2) = omega (arith, or-halves a b) in
    ap (λ n. bit n i) h ∙ bit-or i (a / 2) (b / 2)

pub bit-lt : (i n : ℕ) → bit n i < 2
bit-lt zero n = omega arith
bit-lt (suc i) n = bit-lt i (n / 2)

pub bit-zero : (i : ℕ) → bit 0 i ≡ 0
bit-zero zero = refl
bit-zero (suc i) = bit-zero i

-- ~n at a width of k digits.
abbrev pub complement : ℕ → ℕ → ℕ
complement k n = 2 ^ k - 1 - n

pub bit-complement : (k i n : ℕ) → i < k → n < 2 ^ k → bit (complement k n) i ≡ 1 - bit n i
bit-complement zero i n h l = absurd (omega arith)
bit-complement (suc k) zero n h l = omega (arith, pow-suc 2 k, one-le-pow k 2)
bit-complement (suc k) (suc i) n h l =
    let e : complement (suc k) n / 2 ≡ complement k (n / 2) =
      omega (arith, pow-suc 2 k, one-le-pow k 2) in
    ap (λ m. bit m i) e ∙ bit-complement k i (n / 2) (omega arith) (omega (arith, pow-suc 2 k))

-- The number of ones among the k lowest digits.
abbrev pub ones : ℕ → ℕ → ℕ
ones zero n = 0
ones (suc k) n = n % 2 + ones k (n / 2)

-- A number whose digits are all zero.
pub zero_of_bits : (k n : ℕ) → n < 2 ^ k → ((i : ℕ) → i < k → bit n i ≡ 0) → n ≡ 0
zero_of_bits zero n l h = omega arith
zero_of_bits (suc k) n l h =
    let rest =
      zero_of_bits k (n / 2) (omega (arith, pow-suc 2 k)) (λ i lt. h (suc i) (omega arith)) in
    omega (arith, h 0 (omega arith), rest)

pub bit_and_self : (k n : ℕ) → n < 2 ^ k → bit_and n n ≡ n
bit_and_self zero n l = let e : n ≡ 0 = omega arith in rw e refl
bit_and_self (suc k) n l =
    omega (arith, and-halves n n, bit_and_self k (n / 2) (omega (arith, pow-suc 2 k)))

odd_or_even : (n : ℕ) → (n % 2 ≡ 1) ⊎ (n % 2 ≡ 0)
odd_or_even n = omega arith

clear_odd : (k n : ℕ) → n < 2 ^ suc k → n % 2 ≡ 1 → bit_and n (n - 1) ≡ n / 2 * 2
clear_odd k n l o =
    let q : (n - 1) / 2 ≡ n / 2 = omega arith in
    let h = rw q at (and-halves n (n - 1)) in
    omega (arith, h, bit_and_self k (n / 2) (omega (arith, pow-suc 2 k)))

clear_even : (n : ℕ) → 0 < n → n % 2 ≡ 0 → bit_and n (n - 1) ≡ bit_and (n / 2) (n / 2 - 1) * 2
clear_even n p o =
    let q : (n - 1) / 2 ≡ n / 2 - 1 = omega arith in
    let h = rw q at (and-halves n (n - 1)) in omega (arith, h)

ones-double : (k m : ℕ) → ones (suc k) (m * 2) ≡ ones k m
ones-double k m = let e : m * 2 / 2 ≡ m = omega arith in rw e (omega arith)

-- `n & (n - 1)` has one digit one less.
pub ones-clear : (k n : ℕ) → n < 2 ^ k → 0 < n → ones k (bit_and n (n - 1)) + 1 ≡ ones k n
ones-clear zero n l p = absurd (omega arith)
ones-clear (suc k) n l p = elim (odd_or_even n) [
  | inl odd ↦ rw (clear_odd k n l odd, ones-double k (n / 2)) (omega arith)
  | inr even ↦
      rw (clear_even n p even, ones-double k (bit_and (n / 2) (n / 2 - 1)))
        (omega (arith, ones-clear k (n / 2) (omega (arith, pow-suc 2 k)) (omega arith)))
]

pub clear-lt : (k n : ℕ) → n < 2 ^ k → bit_and n (n - 1) < 2 ^ k
clear-lt k n l = omega (arith, and-le n (n - 1))

pub ones-zero : (k : ℕ) → ones k 0 ≡ 0
ones-zero zero = refl
ones-zero (suc k) = omega (arith, ones-zero k)

pub ones_pos : (k n : ℕ) → n < 2 ^ k → 0 < n → 0 < ones k n
ones_pos k n l p = omega (arith, ones-clear k n l p)
