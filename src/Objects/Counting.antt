-- ===== src/Objects/Counting.antt =====
-- How many objects of a wrapper class point to an object of libnl.
use nlcpp.Common.{
  ℕ, zero, suc, ◌+◌, ◌≡◌, Option, none, some, List, [], ◌∷◌, ◌++◌, arith, ◌==◌, if◌then◌else◌,
  get_elem?, set,
}
use nlcpp.Objects.Defs.{Ptr}

-- The references to `q` that a pointer stands for.
abbrev pub held : Ptr → ℕ → ℕ
held none q = 0
held (some p) q = if p == q then 1 else 0

abbrev pub slot : Option Ptr → ℕ → ℕ
slot none q = 0
slot (some p) q = held p q

unfoldable pub holders : ℕ → List (Option Ptr) → ℕ
holders q [] = 0
holders q (o ∷ os) = slot o q + holders q os

pub holders-append :
    (q : ℕ) (xs ys : List (Option Ptr)) → holders q (xs ++ ys) ≡ holders q xs + holders q ys
unfolding holders
holders-append q [] ys = omega arith
holders-append q (x ∷ xs) ys = omega (arith, holders-append q xs ys)

pub holders-set :
    (q : ℕ) (os : List (Option Ptr)) (i : ℕ) (old new : Option Ptr)
    → get_elem? os i ≡ some old
    → holders q (set os i new) + slot old q ≡ holders q os + slot new q
unfolding holders
holders-set q [] i old new h = ground arith
holders-set q (x ∷ xs) zero old new h = ground arith
holders-set q (x ∷ xs) (suc i) old new h = omega (arith, holders-set q xs i old new h)

pub holders-one : (q : ℕ) (o : Option Ptr) → holders q (o ∷ []) ≡ slot o q
unfolding holders
holders-one q o = omega arith
