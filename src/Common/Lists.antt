-- ===== src/Common/Lists.antt =====
-- Lists measured and indexed by native numbers, under the library's names.
use Prim.Native.Nat.{ℕ, zero, suc, ◌+◌}
use mathlib.Core.Path.{◌≡◌, refl, ap}
use mathlib.Core.Logic.{◌≢◌, ◌⊎◌, inl, inr}
use mathlib.Core.List.{List, [], ◌∷◌, ◌++◌}
use mathlib.Core.Option.{Option, none, some}
use native.Mathlib.Omega.{arith}

module _ {ℓ} {A : Type ℓ} where
  abbrev pub length : List A → ℕ
  length [] = 0
  length (x ∷ xs) = suc (length xs)

  abbrev pub get_elem? : List A → ℕ → Option A
  get_elem? [] i = none
  get_elem? (x ∷ xs) zero = some x
  get_elem? (x ∷ xs) (suc i) = get_elem? xs i

  -- A write out of bounds changes nothing.
  abbrev pub set : List A → ℕ → A → List A
  set [] i v = []
  set (x ∷ xs) zero v = v ∷ xs
  set (x ∷ xs) (suc i) v = x ∷ set xs i v

  pub length-append : (xs ys : List A) → length (xs ++ ys) ≡ length xs + length ys
  length-append [] ys = omega arith
  length-append (x ∷ xs) ys = omega (arith, length-append xs ys)

  pub length-set : (xs : List A) (i : ℕ) (v : A) → length (set xs i v) ≡ length xs
  length-set [] i v = refl
  length-set (x ∷ xs) zero v = refl
  length-set (x ∷ xs) (suc i) v = ap suc (length-set xs i v)

  pub get_elem?-set_ne :
      (xs : List A) (i j : ℕ) (v : A) → i ≢ j → get_elem? (set xs i v) j ≡ get_elem? xs j
  get_elem?-set_ne [] i j v h = refl
  get_elem?-set_ne (x ∷ xs) zero zero v h = absurd (h refl)
  get_elem?-set_ne (x ∷ xs) zero (suc j) v h = refl
  get_elem?-set_ne (x ∷ xs) (suc i) zero v h = refl
  get_elem?-set_ne (x ∷ xs) (suc i) (suc j) v h = get_elem?-set_ne xs i j v (λ e. h (ap suc e))

  pub set-append :
      (xs : List A) (i : ℕ) (v : A) (ys : List A) (old : A)
      → get_elem? xs i ≡ some old
      → set (xs ++ ys) i v ≡ set xs i v ++ ys
  set-append [] i v ys old h = ground arith
  set-append (x ∷ xs) zero v ys old h = refl
  set-append (x ∷ xs) (suc i) v ys old h = ap (λ zs. x ∷ zs) (set-append xs i v ys old h)

  pub get_elem?-append :
      (xs : List A) (v : A) (ys : List A) → get_elem? (xs ++ (v ∷ ys)) (length xs) ≡ some v
  get_elem?-append [] v ys = refl
  get_elem?-append (x ∷ xs) v ys = get_elem?-append xs v ys

  pub set-append_at :
      (xs : List A) (u v : A) (ys : List A) → set (xs ++ (u ∷ ys)) (length xs) v ≡ xs ++ (v ∷ ys)
  set-append_at [] u v ys = refl
  set-append_at (x ∷ xs) u v ys = ap (λ zs. x ∷ zs) (set-append_at xs u v ys)

  pub length-append_one : (xs : List A) (v : A) → length (xs ++ (v ∷ [])) ≡ suc (length xs)
  length-append_one [] v = refl
  length-append_one (x ∷ xs) v = ap suc (length-append_one xs v)

  pub get_elem?-append_left :
      (xs ys : List A) (i : ℕ) (v : A) → get_elem? xs i ≡ some v → get_elem? (xs ++ ys) i ≡ some v
  get_elem?-append_left [] ys i v h = cc
  get_elem?-append_left (x ∷ xs) ys zero v h = h
  get_elem?-append_left (x ∷ xs) ys (suc i) v h = get_elem?-append_left xs ys i v h

  pub get_elem?-set_self :
      (xs : List A) (i : ℕ) (u v : A) → get_elem? xs i ≡ some u → get_elem? (set xs i v) i ≡ some v
  get_elem?-set_self [] i u v h = cc
  get_elem?-set_self (x ∷ xs) zero u v h = refl
  get_elem?-set_self (x ∷ xs) (suc i) u v h = get_elem?-set_self xs i u v h

  -- Behind the end there is nothing.
  pub get_elem?-ne_length : (xs : List A) (i : ℕ) (v : A) → get_elem? xs i ≡ some v → length xs ≢ i
  get_elem?-ne_length [] i v h e = cc
  get_elem?-ne_length (x ∷ xs) zero v h e = omega (arith, e)
  get_elem?-ne_length (x ∷ xs) (suc i) v h e = get_elem?-ne_length xs i v h (omega (arith, e))

  -- What stands in a list with one more element.
  pub get_elem?-append_one :
      (xs : List A) (u v : A) (i : ℕ)
      → get_elem? (xs ++ (v ∷ [])) i ≡ some u
      → (get_elem? xs i ≡ some u) ⊎ (u ≡ v)
  get_elem?-append_one [] u v zero h = inr (cc)
  get_elem?-append_one [] u v (suc i) h = cc
  get_elem?-append_one (x ∷ xs) u v zero h = inl h
  get_elem?-append_one (x ∷ xs) u v (suc i) h = get_elem?-append_one xs u v i h
