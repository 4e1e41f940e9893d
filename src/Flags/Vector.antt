-- ===== src/Flags/Vector.antt =====
-- When the conversion of a flag set to a vector of flags ends, and what it gives.
use Prim.Native.Nat.{bit_and}
use native.Mathlib.Nat.{pow-suc, div-eq_of_lt}
use mathlib.Core.Option
use mathlib.Core.Path.{ap₂}
use nlcpp.Common.{
  ℕ, zero, suc, ◌+◌, ◌*◌, ◌/◌, ◌%◌, ◌^◌, ◌≤◌, ◌<◌, ◌≡◌, refl, sym, ap, ◌∙◌, ◌≢◌, ◌-◌, dec_lt,
  ℕ_discrete, ◌⊎◌, inl, inr, true, false, none, some, List, [], ◌∷◌, map, arith, ◌==◌, leb,
  if◌then◌else◌, Bool-cases,
}
use nlcpp.Flags.{uint_mod, flags, vector_loop, to_vector}
use nlcpp.Flags.Bits.{pow-pos, div-pow-suc, bit_and-pow}

-- The places from `i` on, `k` of them, where `a` has a one.
unfoldable pub ones : (k i a : ℕ) → List ℕ
ones zero i a = []
ones (suc k) i a = if a / 2 ^ i % 2 == 0 then ones k (suc i) a else i ∷ ones k (suc i) a

abbrev pub Ascending : ℕ → List ℕ → Type 0
Ascending lo [] = Unit {0}
Ascending lo (x ∷ xs) = (lo ≤ x) × Ascending (suc x) xs

abbrev pub sum : List ℕ → ℕ
sum [] = 0
sum (x ∷ xs) = x + sum xs

abbrev pub flag_at : ℕ → ℕ
flag_at i = 2 ^ i

Ascending-mono : (lo hi : ℕ) (xs : List ℕ) → lo ≤ hi → Ascending hi xs → Ascending lo xs
Ascending-mono lo hi [] h a = tt
Ascending-mono lo hi (x ∷ xs) h a = (omega arith, a.1)

ones-Ascending : (k i a : ℕ) → Ascending i (ones k i a)
unfolding ones
ones-Ascending zero i a = tt
ones-Ascending (suc k) i a = elim (Bool-cases (a / 2 ^ i % 2 == 0)) [
  | inl z ↦
      rw z (Ascending-mono i (suc i) (ones k (suc i) a) (omega arith) (ones-Ascending k (suc i) a))
  | inr n ↦ rw n (omega arith, ones-Ascending k (suc i) a)
]

is_zero : (n : ℕ) → (n == 0) ≡ true → n ≡ 0
is_zero n h = ground arith

is_one : (n : ℕ) → (n % 2 == 0) ≡ false → n % 2 ≡ 1
is_one n h = let nz : n % 2 ≢ 0 = ground arith in omega arith

div_parts : (n : ℕ) → n ≡ n / 2 * 2 + n % 2
div_parts n = omega arith

ones-sum : (k i a : ℕ) → a / 2 ^ i < 2 ^ k → sum (map flag_at (ones k i a)) ≡ a / 2 ^ i * 2 ^ i
unfolding ones
ones-sum zero i a h =
    let z : a / 2 ^ i ≡ 0 = omega arith in omega (arith, ap (λ (t : ℕ). t * 2 ^ i) z)
ones-sum (suc k) i a h =
    let n = a / 2 ^ i in
    let p = 2 ^ i in
    let below : a / 2 ^ suc i < 2 ^ k = omega (arith, div-pow-suc a i, pow-suc 2 k) in
    let rest : sum (map flag_at (ones k (suc i) a)) ≡ n / 2 * (p * 2) =
      ones-sum k (suc i) a below ∙ ap₂ (λ (x y : ℕ). x * y) (div-pow-suc a i) (pow-suc 2 i) in
    let parts : n * p ≡ n / 2 * 2 * p + n % 2 * p =
      omega (arith, ap (λ (t : ℕ). t * p) (div_parts n)) in
    elim (Bool-cases (n % 2 == 0)) [
      | inl z ↦ rw z (omega (arith, rest, parts, ap (λ (t : ℕ). t * p) (is_zero (n % 2) z)))
      | inr nz ↦ rw nz (omega (arith, rest, parts, ap (λ (t : ℕ). t * p) (is_one n nz)))
    ]

ones-none : (k i a : ℕ) → a / 2 ^ i ≡ 0 → ones k i a ≡ []
unfolding ones
ones-none zero i a h = refl
ones-none (suc k) i a h = ground (arith, ones-none k (suc i) a, div-pow-suc a i)

module _ (k f a : ℕ) where
  loop_past : a < f → vector_loop (suc k) f a ≡ some []
  unfolding vector_loop
  loop_past h = let t : leb f a ≡ false = ground arith in rw t

  loop_skip : f ≤ a → bit_and a f ≡ 0 → vector_loop (suc k) f a ≡ vector_loop k (f * 2 % uint_mod) a
  unfolding vector_loop
  loop_skip h z =
      let t : leb f a ≡ true = ground arith in
      let u : (bit_and a f == 0) ≡ true = ground arith in rw (t, u)

  loop_take :
      f ≤ a
      → 0 < bit_and a f
      → vector_loop (suc k) f a ≡ Option.map (λ fs. f ∷ fs) (vector_loop k (f * 2 % uint_mod) a)
  unfolding vector_loop
  loop_take h z =
      let t : leb f a ≡ true = ground arith in
      let u : (bit_and a f == 0) ≡ false = ground arith in rw (t, u)

vector_loop-zero : (f a : ℕ) → vector_loop 0 f a ≡ none
unfolding vector_loop
vector_loop-zero f a = refl

-- A flag below the highest is shifted with no wrap.
shift_flag :
    (p k : ℕ) → p * 2 ^ suc k ≡ 2 ^ 31 → (p * 2 * 2 ^ k ≡ 2 ^ 31) × (p * 2 % uint_mod ≡ p * 2)
shift_flag p k h =
    let q = 2 ^ k in
    let r = q - 1 in
    let e : q ≡ r + 1 = omega (arith, pow-pos k) in
    let whole : p * 2 * q ≡ 2 ^ 31 = omega (arith, ap (λ (t : ℕ). p * t) (pow-suc 2 k)) in
    (whole, omega (arith, whole, ap (λ (t : ℕ). p * t) e))

loop-ones :
    (k i a : ℕ)
    → 2 ^ i * 2 ^ k ≡ 2 ^ 31
    → a < 2 ^ 31
    → vector_loop (suc k) (2 ^ i) a ≡ some (map flag_at (ones k i a))
unfolding ones
loop-ones zero i a h lt = loop_past 0 (2 ^ i) a (omega arith)
loop-ones (suc k) i a h lt =
    let p = 2 ^ i in
    let (whole, same) = shift_flag p k h in
    let next : p * 2 % uint_mod ≡ 2 ^ suc i = same ∙ sym (pow-suc 2 i) in
    let ih = loop-ones k (suc i) a (rw (pow-suc 2 i) whole) lt in
    elim (dec_lt a p) [
      | yes past ↦
          loop_past (suc k) p a past
          ∙ ap (λ l. some (map flag_at l)) (sym (ones-none (suc k) i a (div-eq_of_lt past)))
      | no more ↦ elim (Bool-cases (a / p % 2 == 0)) [
        | inl z ↦ rw z (
            loop_skip (suc k) p a (omega arith)
              (omega (arith, bit_and-pow a i, ap (λ (t : ℕ). t * p) (is_zero (a / p % 2) z)))
            ∙ ap (λ (t : ℕ). vector_loop (suc k) t a) next
            ∙ ih)
        | inr nz ↦ rw nz (
            loop_take (suc k) p a (omega arith)
              (omega (arith, bit_and-pow a i, ap (λ (t : ℕ). t * p) (is_one (a / p) nz), pow-pos i))
            ∙ ap (λ (t : ℕ). Option.map (λ fs. p ∷ fs) (vector_loop (suc k) t a)) next
            ∙ ap (Option.map (λ fs. p ∷ fs)) ih)
      ]
    ]

-- A set without the highest flag is converted within 32 rounds: the vector holds the powers of two at
-- ascending places, and their sum is the word, so these are exactly its flags.
pub to_vector-flags :
    (a : ℕ)
    → a < 2 ^ 31
    → (places : List ℕ) × (to_vector 32 (flags a) ≡ some (map flag_at places))
      × Ascending 0 places
      × (sum (map flag_at places) ≡ a)
unfolding to_vector
to_vector-flags a h = (
  ones 31 0 a,
  loop-ones 31 0 a refl h,
  ones-Ascending 31 0 a,
  ones-sum 31 0 a (omega arith) ∙ omega arith,
)

-- Past the last flag, `f` is 0 and stays 0.
abbrev IsFlag : ℕ → Type 0
IsFlag f = (f ≡ 0) ⊎ ((k : ℕ) × (f * 2 ^ k ≡ 2 ^ 31))

IsFlag-le : (f : ℕ) → IsFlag f → f ≤ 2 ^ 31
IsFlag-le f (inl z) = omega arith
IsFlag-le f (inr (k, h)) =
    let e : 2 ^ k ≡ (2 ^ k - 1) + 1 = omega (arith, pow-pos k) in
    omega (arith, h, ap (λ (t : ℕ). f * t) e)

IsFlag-shift : (f : ℕ) → IsFlag f → IsFlag (f * 2 % uint_mod)
IsFlag-shift f (inl z) = inl (omega arith)
IsFlag-shift f (inr (zero, h)) = inl (omega arith)
IsFlag-shift f (inr (suc k, h)) = let (whole, same) = shift_flag f k h in inr (k, rw same whole)

loop-endless : (k f a : ℕ) → IsFlag f → 2 ^ 31 ≤ a → vector_loop k f a ≡ none
loop-endless zero f a h le = vector_loop-zero f a
loop-endless (suc k) f a h le =
    let ih = loop-endless k (f * 2 % uint_mod) a (IsFlag-shift f h) le in
    let reached : f ≤ a = omega (arith, IsFlag-le f h) in
    elim (ℕ_discrete (bit_and a f) 0) [
      | yes z ↦ loop_skip k f a reached z ∙ ih
      | no nz ↦ loop_take k f a reached (omega arith) ∙ ap (Option.map (λ fs. f ∷ fs)) ih
    ]

-- A set with the highest flag is never converted, however many rounds the loop makes. Past
-- that flag the shifted `f` is 0, which is below every word.
pub to_vector-endless : (a : ℕ) → 2 ^ 31 ≤ a → (fuel : ℕ) → to_vector fuel (flags a) ≡ none
unfolding to_vector
to_vector-endless a h fuel = loop-endless fuel 1 a (inr (31, refl)) h
