-- ===== src/Tests/Iteration.antt =====
-- Loops over a cache of three objects.
use nlcpp.Common.{ℕ, ◌≡◌, refl, ◌==◌, ◌||◌, if◌then◌else◌, true, none, some, [], ◌∷◌}
use nlcpp.Objects.Defs.{Ptr}
use nlcpp.Route.TypedCache.{NlCache}
use nlcpp.Route.TypedCache.Iteration.{matching}

-- The objects 1, 2 and 3. The objects 1 and 3 match the filter 8; all match any other.
abbrev next_of : ℕ → Ptr
next_of n = if n == 1 then some 2 else if n == 2 then some 3 else none

abbrev objects : NlCache
objects = record {
  first = some 1;
  next = next_of;
  matches = λ x f. (x == 1) || (x == 3) || (f == 9);
}

abbrev plain : NlCache
plain = record { first = some 1; next = next_of; matches = λ x f. true }

abbrev empty : NlCache
empty = record { first = none; next = next_of; matches = λ x f. true }

matched : matching objects 8 (1 ∷ 2 ∷ 3 ∷ []) ≡ 1 ∷ 3 ∷ []
unfolding matching
matched = refl
