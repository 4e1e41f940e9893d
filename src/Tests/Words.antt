-- ===== src/Tests/Words.antt =====
-- The conversion of a flag set to a vector, at two words.
use nlcpp.Common.{ℕ, ◌+◌, ◌≡◌, refl, none, some, List, [], ◌∷◌, map, arith}
use nlcpp.Flags.{flags, to_vector, FlagNames, to_texts}
use nlcpp.Flags.Vector.{Ascending, sum, flag_at, to_vector-flags, to_vector-endless}

vector_of_5 : to_vector 32 (flags 5) ≡ some (1 ∷ 4 ∷ [])
unfolding to_vector
vector_of_5 = refl

to_vector-flags_example :
    (places : List ℕ) × (to_vector 32 (flags 0x10043) ≡ some (map flag_at places))
    × Ascending 0 places
    × (sum (map flag_at places) ≡ 0x10043)
to_vector-flags_example = to_vector-flags 0x10043 (omega arith)

to_vector-endless_example : to_vector 1000 (flags 0x8000_0001) ≡ none
to_vector-endless_example = to_vector-endless 0x8000_0001 (omega arith) 1000

abbrev names : FlagNames ℕ
names = record { str2flags = λ t. t; flags2str = λ f. f + 100 }

texts_of_5 : to_texts names 32 (flags 5) ≡ some (101 ∷ 104 ∷ [])
unfolding to_texts
texts_of_5 = refl
