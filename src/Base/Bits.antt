-- ===== src/Base/Bits.antt =====
-- `|` and `&` on machine words, from the digit recursion that the native operations stand for:
-- joining two fields, and masking with ones.
use Prim.Native.Nat.{
  ℕ, zero, suc, ◌+◌, ◌-◌, ◌*◌, ◌/◌, ◌%◌, ◌^◌, ◌≤◌, ◌<◌, min, max, bit_and, bit_or, digits,
  bit_and-bitwise, bit_or-bitwise,
}
use mathlib.Core.Path.{◌≡◌, refl, ap, sym, ◌∙◌}
use native.Mathlib.Nat.{pow-suc, div-add-mod', div-div-eq-div-mul}
use native.Mathlib.Omega.{arith}

-- The recursion over the digits of the first number, with what it ends in and what it makes of two
-- digits.
module _ (last : ℕ → ℕ) (join : ℕ → ℕ → ℕ) where
  spare_count : (n a b : ℕ) → a ≤ n → digits last join (suc n) a b ≡ digits last join n a b
  spare_count zero zero b h = refl
  spare_count zero (suc a) b h = absurd (omega arith)
  spare_count (suc n) zero b h = refl
  spare_count (suc n) (suc a) b h =
      ap (λ low. low * 2 + join (suc a % 2) (b % 2))
        (spare_count n (suc a / 2) (b / 2) (omega arith))

  spare_counts : (k a b : ℕ) → digits last join (a + k) a b ≡ digits last join a a b
  spare_counts zero a b =
      let same : a + zero ≡ a = omega arith in ap (λ n. digits last join n a b) same
  spare_counts (suc k) a b =
      let same : a + suc k ≡ suc (a + k) = omega arith in
      ap (λ n. digits last join n a b) same
      ∙ spare_count (a + k) a b (omega arith)
      ∙ spare_counts k a b

  -- The lowest digits are joined, and the halves are.
  halves :
      ((b : ℕ) → last b ≡ last (b / 2) * 2 + join 0 (b % 2))
      → (a b : ℕ)
      → digits last join a a b ≡ digits last join (a / 2) (a / 2) (b / 2) * 2 + join (a % 2) (b % 2)
  halves runs_out zero b = runs_out b
  halves runs_out (suc a) b =
      let half = suc a / 2 in
      let same : a ≡ half + (a - half) = omega arith in
      ap (λ low. low * 2 + join (suc a % 2) (b % 2))
        (ap (λ n. digits last join n half (b / 2)) same ∙ spare_counts (a - half) half (b / 2))

or_halves : (a b : ℕ) → bit_or a b ≡ bit_or (a / 2) (b / 2) * 2 + max (a % 2) (b % 2)
or_halves a b =
    bit_or-bitwise a b
    ∙ halves (λ b. b) max (λ b. omega arith) a b
    ∙ ap (λ low. low * 2 + max (a % 2) (b % 2)) (sym (bit_or-bitwise (a / 2) (b / 2)))

and_halves : (a b : ℕ) → bit_and a b ≡ bit_and (a / 2) (b / 2) * 2 + min (a % 2) (b % 2)
and_halves a b =
    bit_and-bitwise a b
    ∙ halves (λ b. zero) min (λ b. omega arith) a b
    ∙ ap (λ low. low * 2 + min (a % 2) (b % 2)) (sym (bit_and-bitwise (a / 2) (b / 2)))

below_pow : (a : ℕ) → a < 2 ^ a
below_pow zero = omega arith
below_pow (suc a) = omega (arith, below_pow a, pow-suc 2 a)

-- The other number is zero; `k` bounds the digits.
or_nothing : (k a : ℕ) → a < 2 ^ k → bit_or a 0 ≡ a
or_nothing zero a h = let none_left : a ≡ 0 = omega arith in rw none_left (bit_or-bitwise 0 0)
or_nothing (suc k) a h =
    omega (arith, or_halves a 0, or_nothing k (a / 2) (omega (arith, pow-suc 2 k)))

and_nothing : (k a : ℕ) → a < 2 ^ k → bit_and a 0 ≡ 0
and_nothing zero a h = let none_left : a ≡ 0 = omega arith in rw none_left (bit_and-bitwise 0 0)
and_nothing (suc k) a h =
    omega (arith, and_halves a 0, and_nothing k (a / 2) (omega (arith, pow-suc 2 k)))

-- Two fields that do not overlap are joined by addition.
pub bit_or_fields : (k h l : ℕ) → l < 2 ^ k → bit_or (h * 2 ^ k) l ≡ h * 2 ^ k + l
bit_or_fields zero h l p = rw (l_zero, h_one) (or_nothing h h (below_pow h) ∙ omega arith)
  where
    l_zero : l ≡ 0
    l_zero = omega arith

    h_one : h * 2 ^ 0 ≡ h
    h_one = omega arith
bit_or_fields (suc k) h l p = rw double (
    omega (
      arith,
      or_halves (h * 2 ^ k * 2) l,
      rest (bit_or_fields k h (l / 2) (omega (arith, pow-suc 2 k))),
    ))
  where
    double : h * 2 ^ suc k ≡ h * 2 ^ k * 2
    double = rw (pow-suc 2 k) (omega arith)

    rest :
        bit_or (h * 2 ^ k) (l / 2) ≡ h * 2 ^ k + l / 2
        → bit_or (h * 2 ^ k * 2 / 2) (l / 2) ≡ h * 2 ^ k + l / 2
    rest ih = ap (λ n. bit_or n (l / 2)) (omega arith) ∙ ih

pub pow_pos : (k : ℕ) → 1 ≤ 2 ^ k
pow_pos zero = omega arith
pow_pos (suc k) = omega (arith, pow-suc 2 k, pow_pos k)

mod_double : (p a : ℕ) → 1 ≤ p → a % (p * 2) ≡ a / 2 % p * 2 + a % 2
mod_double p a h =
    omega (arith, div-add-mod' a (p * 2), div-add-mod' (a / 2) p, ap (λ q. q * p) quotients)
  where
    quotients : a / (p * 2) ≡ a / 2 / p
    quotients = ap (λ n. a / n) (omega arith) ∙ sym (div-div-eq-div-mul a 2 p)

-- A mask of `k` ones keeps the `k` low digits.
pub bit_and_mask : (k a : ℕ) → bit_and a (2 ^ k - 1) ≡ a % 2 ^ k
bit_and_mask zero a = and_nothing a a (below_pow a) ∙ omega arith
bit_and_mask (suc k) a = omega (
  arith,
  and_halves a (2 ^ suc k - 1),
  ap (λ n. bit_and (a / 2) n) half,
  bit_and_mask k (a / 2),
  mod_double (2 ^ k) a (pow_pos k),
  ap (λ n. a % n) (pow-suc 2 k),
  pow-suc 2 k,
  pow_pos k,
)
  where
    half : (2 ^ suc k - 1) / 2 ≡ 2 ^ k - 1
    half = omega (arith, pow-suc 2 k, pow_pos k)

-- A mask of 32 digits without the two lowest.
pub bit_and_align : (a : ℕ) → a < 2 ^ 32 → bit_and a 4294967292 ≡ a / 4 * 4
bit_and_align a h =
    omega (
      arith,
      and_halves a 4294967292,
      and_halves (a / 2) 2147483646,
      bit_and_mask 30 (a / 2 / 2),
      h,
    )
