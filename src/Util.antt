-- ===== src/Util.antt =====
-- include/tuner/Util.h, runtime/tuner/Util.cpp: pow2Bit and nearbyInt.
use native.Mathlib.Decide.{ℕ_discrete}
use at_jit.Prelude.{
  ℕ, zero, suc, ◌+◌, ◌-◌, ◌/◌, ◌%◌, ◌^◌, ◌≤◌, if◌then◌else◌, ◌==◌, ◌≡◌, refl, arith, sym, subst,
  ◌⊎◌, inl, inr,
}
use at_jit.Prelude.Int.{ℤ, pos, negsuc, ◌-ℤ◌, ◌≤ℤ◌, max_ℤ, min_ℤ}
use at_jit.Prelude.Double.{Double}
use at_jit.Prelude.Rng.{Rng}

-- The set bits among the k low ones: std::bitset<k>(n).count()
pub count_bits : ℕ → ℕ → ℕ
count_bits zero n = 0
count_bits (suc k) n = n % 2 + count_bits k (n / 2)

-- `val -= 1` wraps at 2^64.
unfoldable pub pow2_bit : ℕ → ℕ
unfolding count_bits
pow2_bit val = if val == 1 then 0 else count_bits 16 ((val + 2 ^ 64 - 1) % 2 ^ 64)

abbrev pub abs_ℤ : ℤ → ℤ
abs_ℤ (pos n) = pos n
abs_ℤ (negsuc n) = pos (suc n)

-- std::min(std::max(val, min), max)
pub clamp : ℤ → ℤ → ℤ → ℤ
clamp lo hi v = min_ℤ (max_ℤ v lo) hi

module _ (dbl : Double) (rng : Rng dbl) where
  open dbl use {D, lit, of_int, mul, div, trunc}
  open rng use {E, normal}

  pub nearby_int : E → ℤ → ℤ → ℤ → D → ℤ × E
  nearby_int eng cur lo hi energy =
      let range = abs_ℤ (hi -ℤ lo) in
      let scaled_range = trunc (mul (of_int range) (div energy (lit 100 0))) in
      let std_dev = trunc (div (of_int scaled_range) (lit 2 0)) in
      let (val, eng') = normal cur std_dev eng in (clamp lo hi val, eng')

  -- The result lies in the inclusive range, whatever the distribution draws.
  pub nearby_int_bounds :
      (eng : E) (cur lo hi : ℤ) (energy : D)
      → lo ≤ℤ hi
      → (lo ≤ℤ (nearby_int eng cur lo hi energy).0) × ((nearby_int eng cur lo hi energy).0 ≤ℤ hi)
  unfolding nearby_int clamp
  nearby_int_bounds eng cur lo hi energy h = ground arith

-- A property of every number up to n, number by number.
abbrev Table : (ℕ → Type 0) → ℕ → Type 0
Table P zero = P zero
Table P (suc n) = Table P n × P (suc n)

Table-lookup : (P : ℕ → Type 0) (n k : ℕ) → Table P n → k ≤ n → P k
Table-lookup P zero zero entries h = entries
Table-lookup P zero (suc k) entries h = absurd (omega arith)
Table-lookup P (suc n) k entries h = elim (ℕ_discrete k (suc n)) [
  | yes last ↦ subst P (sym last) entries.1
  | no below ↦ Table-lookup P n k entries.0 (omega arith)
]

logarithms : Table (λ k. pow2_bit (2 ^ k) ≡ k) 8
unfolding pow2_bit
logarithms = ((((((((refl, refl), refl), refl), refl), refl), refl), refl), refl)

large_logarithms : Table (λ k. pow2_bit (2 ^ (9 + k)) ≡ 9 + k) 7
unfolding pow2_bit
large_logarithms = (((((((refl, refl), refl), refl), refl), refl), refl), refl)

-- On a power of two up to 2^16, pow2Bit is the logarithm.
pub pow2_bit-pow : (k : ℕ) → k ≤ 16 → pow2_bit (2 ^ k) ≡ k
pow2_bit-pow k h = elim (below_or_above k) [
  | inl low ↦ Table-lookup (λ k. pow2_bit (2 ^ k) ≡ k) 8 k logarithms low
  | inr high ↦
      let split : 9 + (k - 9) ≡ k = omega arith in
      subst (λ k. pow2_bit (2 ^ k) ≡ k) split
        (Table-lookup (λ k. pow2_bit (2 ^ (9 + k)) ≡ 9 + k) 7 (k - 9) large_logarithms
          (omega arith))
]
  where
    below_or_above : (k : ℕ) → (k ≤ 8) ⊎ (9 ≤ k)
    below_or_above k = omega arith
