-- ===== src/Flags/Texts.antt =====
-- The two conversions of a flag set to a vector.
use Prim.Native.Nat.{bit_and}
use mathlib.Core.Option
use nlcpp.Common.{
  ℕ, zero, suc, ◌*◌, ◌%◌, ◌≡◌, refl, ap, ◌∙◌, Option, none, some, List, ◌∷◌, map, ◌==◌, leb,
  Bool-cases, inl, inr,
}
use nlcpp.Flags.{uint_mod, Flags, FlagNames, vector_loop, to_vector, texts_loop, to_texts}

module _ {Text : Type 0} (names : FlagNames Text) where
  map-behind :
      (f : ℕ) (o : Option (List ℕ))
      → Option.map (λ ts. names.flags2str f ∷ ts) (Option.map (λ fs. map names.flags2str fs) o)
        ≡ Option.map (λ fs. map names.flags2str fs) (Option.map (λ fs. f ∷ fs) o)
  map-behind f none = refl
  map-behind f (some fs) = refl

  texts_loop-vector :
      (fuel f a : ℕ)
      → texts_loop names fuel f a ≡ Option.map (λ fs. map names.flags2str fs) (vector_loop fuel f a)
  unfolding texts_loop vector_loop
  texts_loop-vector zero f a = refl
  texts_loop-vector (suc fuel) f a =
      let ih = texts_loop-vector fuel (f * 2 % uint_mod) a in
      elim (Bool-cases (leb f a)) [
        | inl le ↦ elim (Bool-cases (bit_and a f == 0)) [
          | inl z ↦ rw (le, z) ih
          | inr nz ↦
              rw (le, nz)
                (ap (Option.map (λ ts. names.flags2str f ∷ ts)) ih
                  ∙ map-behind f (vector_loop fuel (f * 2 % uint_mod) a))
        ]
        | inr gt ↦ rw gt
      ]

  -- The conversion of a flag set to a vector of texts gives the texts of the flags that the conversion to
  -- a vector of flags gives, in the same order, and ends exactly when that does.
  pub to_texts-to_vector :
      (fuel : ℕ) (a : Flags)
      → to_texts names fuel a ≡ Option.map (λ fs. map names.flags2str fs) (to_vector fuel a)
  unfolding to_texts to_vector
  to_texts-to_vector fuel a = texts_loop-vector fuel 1 a.value
