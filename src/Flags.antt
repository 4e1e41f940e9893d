-- ===== src/Flags.antt =====
-- GenericFlags of include/nlcpp/utils.h and src/utils.inl: a set of flags in a 32-bit word.
pub mod Bits
pub mod Vector
pub mod Texts
use Prim.Native.Nat.{bit_and, bit_or, bit_xor}
use nlcpp.Common.{
  ℕ, zero, suc, ◌+◌, ◌-◌, ◌*◌, ◌%◌, ◌^◌, Option, none, some, List, [], ◌∷◌, ◌==◌, leb,
  if◌then◌else◌,
}
use mathlib.Core.Option

-- `unsigned int` has 32 bits.
abbrev pub uint_mod : ℕ
uint_mod = 2 ^ 32

pub record Flags : Type 0 where
  pub value : ℕ

abbrev pub flags : ℕ → Flags
flags v = record { value = v }

-- GenericFlags(std::initializer_list<GenericFlags<T>>), from `value(0)` on
unfoldable pub or_all : Flags → List Flags → Flags
or_all a [] = a
or_all a (f ∷ fs) = or_all (flags (bit_or a.value f.value)) fs

unfoldable pub of_list : List Flags → Flags
unfolding or_all
of_list list = or_all (flags 0) list

-- The loop of `operator vector<unsigned int>`; `none` where it has not ended after `fuel` rounds.
unfoldable pub vector_loop : (fuel : ℕ) → (f value : ℕ) → Option (List ℕ)
vector_loop zero f value = none
vector_loop (suc fuel) f value =
    let rest = vector_loop fuel (f * 2 % uint_mod) value in
    if leb f value
    then (if bit_and value f == 0 then rest else Option.map (λ fs. f ∷ fs) rest)
    else some []

-- operator vector<unsigned int>
unfoldable pub to_vector : (fuel : ℕ) → Flags → Option (List ℕ)
unfolding vector_loop
to_vector fuel a = vector_loop fuel 1 a.value

unfoldable pub and_flags : Flags → Flags → Flags
and_flags a b = flags (bit_and a.value b.value)

unfoldable pub or_flags : Flags → Flags → Flags
or_flags a b = flags (bit_or a.value b.value)

unfoldable pub xor_flags : Flags → Flags → Flags
xor_flags a b = flags (bit_xor a.value b.value)

unfoldable pub not_flags : Flags → Flags
not_flags a = flags (uint_mod - 1 - a.value)

-- operator&= and operator|=: the set after them is also what they return.
unfoldable pub and_assign : Flags → Flags → Flags
unfolding and_flags
and_assign a b = and_flags a b

unfoldable pub or_assign : Flags → Flags → Flags
unfolding or_flags
or_assign a b = or_flags a b

-- str2flags and flags2str of the class that the flags belong to.
pub record FlagNames (Text : Type 0) : Type 0 where
  pub str2flags : Text → ℕ
  pub flags2str : ℕ → Text

module _ {Text : Type 0} (names : FlagNames Text) where
  -- GenericFlags(string)
  unfoldable pub of_text : Text → Flags
  of_text text = flags (names.str2flags text)

  -- operator string
  unfoldable pub to_text : Flags → Text
  to_text a = names.flags2str a.value

  -- The loop of `operator vector<string>`; `none` where it has not ended after `fuel` rounds.
  unfoldable pub texts_loop : (fuel : ℕ) → (f value : ℕ) → Option (List Text)
  texts_loop zero f value = none
  texts_loop (suc fuel) f value =
      let rest = texts_loop fuel (f * 2 % uint_mod) value in
      if leb f value
      then (if bit_and value f == 0 then rest else Option.map (λ ts. names.flags2str f ∷ ts) rest)
      else some []

  -- operator vector<string>
  unfoldable pub to_texts : (fuel : ℕ) → Flags → Option (List Text)
  unfolding texts_loop
  to_texts fuel a = texts_loop fuel 1 a.value
