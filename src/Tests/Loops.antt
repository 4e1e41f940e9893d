-- ===== src/Tests/Loops.antt =====
-- Iterators of a cache of three addresses, at the libnl of Store.
use nlcpp.Common.{ℕ, zero, suc, ◌≡◌, refl, arith, ◌==◌, ◌||◌, none, some, [], ◌∷◌, map}
use nlcpp.Common.Run.{Ends}
use nlcpp.Objects.Defs.{Ptr, World}
use nlcpp.Objects.Counting.{holders}
use nlcpp.Objects.Rules.{Owned}
use nlcpp.Route.RouteAddress.Lifetime.{route_address_class, route_address_class-IsClass}
use nlcpp.Route.TypedCache.{NlCache}
use nlcpp.Route.TypedCache.Iteration.{matching}
use nlcpp.Route.TypedCache.Iterators.{IteratorObject, loop_over_filtered, iterator_post_increment}
use nlcpp.Route.TypedCache.Iterators.Steps.{IsKept, KeepsObjects}
use nlcpp.Route.TypedCache.Iterators.Balance.{Balanced}
use nlcpp.Route.TypedCache.Iterators.Loops.{Failed, loop_over_filtered-Balanced}
use nlcpp.Route.TypedCache.Iterators.Postfix.{Passed, iterator_post_increment-Passed}
use nlcpp.Tests.Store.{count_at, counts, counts-IsCounted}

-- The addresses 1, 2 and 3, of which 1 and 3 match.
abbrev next_address : ℕ → Ptr
next_address (suc zero) = some 2
next_address (suc (suc zero)) = some 3
next_address n = none

abbrev addresses : NlCache
addresses = record { first = some 1; next = next_address; matches = λ x f. (x == 1) || (x == 3) }

-- What the cache has.
abbrev kept : ℕ → ℕ
kept = count_at (0 ∷ 1 ∷ 1 ∷ 1 ∷ [])

addresses-KeepsObjects : KeepsObjects addresses kept
addresses-KeepsObjects = record { first_kept = omega arith; next_kept = next-IsKept }
  where
    next-IsKept : (x : ℕ) → IsKept kept (next_address x)
    next-IsKept zero = tt
    next-IsKept (suc zero) = omega arith
    next-IsKept (suc (suc zero)) = omega arith
    next-IsKept (suc (suc (suc n))) = tt

-- The filter is the object at 0, with the address 4.
abbrev with_filter : World counts
with_filter = record { objects = some (some 4) ∷ []; store = 0 ∷ 1 ∷ 1 ∷ 1 ∷ 1 ∷ [] }

with_filter-Owned : Owned kept with_filter
unfolding holders
with_filter-Owned zero = refl
with_filter-Owned (suc zero) = refl
with_filter-Owned (suc (suc zero)) = refl
with_filter-Owned (suc (suc (suc zero))) = refl
with_filter-Owned (suc (suc (suc (suc zero)))) = refl
with_filter-Owned (suc (suc (suc (suc (suc n))))) = ground arith

loop_over_filtered-Balanced_example :
    Ends
      (λ items u.
        (items ≡ map some (matching addresses 4 (1 ∷ 2 ∷ 3 ∷ []))) × Balanced kept with_filter u)
      (Failed
        (route_address_class counts)
        (route_address_class-IsClass counts counts-IsCounted)
        addresses
        kept
        addresses-KeepsObjects
        with_filter
        with_filter-Owned)
      (loop_over_filtered (route_address_class counts) addresses 4 0 with_filter)
loop_over_filtered-Balanced_example =
    loop_over_filtered-Balanced (route_address_class counts)
      (route_address_class-IsClass counts counts-IsCounted) addresses kept addresses-KeepsObjects
      with_filter with_filter-Owned 0 4 1 (2 ∷ 3 ∷ []) 4 refl (refl, (refl, (refl, refl)))
      (omega arith)

-- An iterator at the address 1, with the same filter.
abbrev with_iterator : World counts
with_iterator = record {
  objects = some (some 1) ∷ some (some 4) ∷ [];
  store = 0 ∷ 2 ∷ 1 ∷ 1 ∷ 1 ∷ [];
}

with_iterator-Owned : Owned kept with_iterator
unfolding holders
with_iterator-Owned zero = refl
with_iterator-Owned (suc zero) = refl
with_iterator-Owned (suc (suc zero)) = refl
with_iterator-Owned (suc (suc (suc zero))) = refl
with_iterator-Owned (suc (suc (suc (suc zero)))) = refl
with_iterator-Owned (suc (suc (suc (suc (suc n))))) = ground arith

abbrev iterator : IteratorObject
iterator = record { obj = 0; filter = 1 }

iterator_post_increment-Passed_example :
    Ends
      (Passed kept with_iterator iterator (some 1) (some 4) (some 3) (some 4))
      (λ _ _. ⊥)
      (iterator_post_increment (route_address_class counts) addresses 3 iterator with_iterator)
unfolding matching
iterator_post_increment-Passed_example =
    iterator_post_increment-Passed (route_address_class counts)
      (route_address_class-IsClass counts counts-IsCounted) addresses kept addresses-KeepsObjects
      with_iterator iterator 1 4 (2 ∷ 3 ∷ []) 3 refl refl (λ h. omega (arith, h))
      (refl, (refl, refl)) (omega arith) with_iterator-Owned
