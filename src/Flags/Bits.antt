-- ===== src/Flags/Bits.antt =====
-- One bit of a word.
use Prim.Native.Nat.{min, bit_and, digits, bit_and-bitwise}
use native.Mathlib.Nat.{pow-suc, mul_comm, div-div-eq-div-mul, div-eq_of_lt}
use nlcpp.Common.{ℕ, zero, suc, ◌*◌, ◌/◌, ◌%◌, ◌^◌, ◌≤◌, ◌<◌, ◌≡◌, refl, sym, ap, ◌∙◌, arith}

-- The digits that two words have in common, `count` of them at most.
abbrev common : (count a b : ℕ) → ℕ
common count = digits (λ _. 0) min count

common-none : (count a : ℕ) → common count a 0 ≡ 0
common-none zero a = refl
common-none (suc count) zero = refl
common-none (suc count) (suc a) = omega (arith, common-none count (suc a / 2))

pub pow-pos : (i : ℕ) → 0 < 2 ^ i
pow-pos zero = omega arith
pow-pos (suc i) = omega (arith, pow-pos i, pow-suc 2 i)

pub div-pow-suc : (a i : ℕ) → a / 2 ^ suc i ≡ a / 2 ^ i / 2
div-pow-suc a i = rw (pow-suc 2 i) (sym (div-div-eq-div-mul a (2 ^ i) 2))

div-suc-pow : (a i : ℕ) → a / 2 ^ suc i ≡ a / 2 / 2 ^ i
div-suc-pow a i = rw (pow-suc 2 i, mul_comm (2 ^ i) 2) (sym (div-div-eq-div-mul a 2 (2 ^ i)))

-- The word 0 has no digit at any place.
no_digit : (i : ℕ) → 0 / 2 ^ i % 2 * 2 ^ i ≡ 0
no_digit i = omega (arith, ap (λ (q : ℕ). q % 2 * 2 ^ i) (div-eq_of_lt (pow-pos i)))

common-flag : (count a i : ℕ) → a ≤ count → common count a (2 ^ i) ≡ a / 2 ^ i % 2 * 2 ^ i
common-flag zero zero i h = sym (no_digit i)
common-flag zero (suc a) i h = absurd (omega arith)
common-flag (suc count) zero i h = sym (no_digit i)
common-flag (suc count) (suc a) zero h = omega (arith, common-none count (suc a / 2))
common-flag (suc count) (suc a) (suc i) h =
    let half : 2 ^ suc i / 2 ≡ 2 ^ i = omega (arith, pow-suc 2 i) in
    let low : min (suc a % 2) (2 ^ suc i % 2) ≡ 0 = omega (arith, pow-suc 2 i) in
    let rest = common-flag count (suc a / 2) i (omega arith) in
    rw (div-suc-pow (suc a) i) (
      omega (
        arith,
        ap (common count (suc a / 2)) half,
        rest,
        low,
        ap (λ (t : ℕ). suc a / 2 / 2 ^ i % 2 * t) (pow-suc 2 i),
      ))

-- A word and the flag at place `i` have the digit at that place in common.
pub bit_and-pow : (a i : ℕ) → bit_and a (2 ^ i) ≡ a / 2 ^ i % 2 * 2 ^ i
bit_and-pow a i = bit_and-bitwise a (2 ^ i) ∙ common-flag a a i (omega arith)
