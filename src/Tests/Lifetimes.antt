-- ===== src/Tests/Lifetimes.antt =====
-- The lifetime theorems at a small store.
use nlcpp.Common.{◌+◌, ℕ, ◌≡◌, refl, none, some, List, [], ◌∷◌, arith}
use nlcpp.Objects.Defs.{World}
use nlcpp.Objects.Class.History.{
  Call, make, move, move_assign, destroy, step, handed, History, done, next,
}
use nlcpp.Objects.Counting.{holders}
use nlcpp.Objects.Rules.{Owned}
use nlcpp.Route.RouteAddress.{
  route_address_make, route_address_take, route_address_share, route_address_move,
  route_address_move_assign, route_address_destroy,
}
use nlcpp.Route.Ownership.{address_kind, link_kind, class_of, call_defined, History-no_leak}
use nlcpp.Tests.Store.{counts, counts-IsCounted}

abbrev empty_world : World counts
empty_world = record { objects = []; store = [] }

abbrev calls : List Call
calls = make ∷ make ∷ move_assign 0 1 ∷ move 0 ∷ destroy 2 ∷ destroy 1 ∷ destroy 0 ∷ []

abbrev last_world : World counts
last_world = record { objects = none ∷ none ∷ none ∷ []; store = 0 ∷ 0 ∷ [] }

history : History (class_of counts address_kind) (λ q. 0) empty_world calls (λ q. 0) last_world
unfolding class_of step route_address_make route_address_take route_address_share route_address_move
    route_address_move_assign route_address_destroy
history = next tt refl (
    next tt refl (
      next (some 0, some 1, refl, refl) refl
        (next (some 1, refl) refl
          (next (some 1, refl) refl (next (none, refl) refl (next (none, refl) refl done))))))

nothing_owned : (q : ℕ) → counts.refs empty_world.store q ≡ holders q empty_world.objects + 0
unfolding holders
nothing_owned q = omega arith

History-no_leak_example : counts.refs last_world.store 1 ≡ 0
History-no_leak_example =
    History-no_leak counts counts-IsCounted address_kind history nothing_owned tt 1

call_defined_example :
    (v : World counts) × (step (class_of counts link_kind) make empty_world ≡ some v)
    × Owned (handed (λ q. 0) make) v
unfolding holders
call_defined_example =
    call_defined counts counts-IsCounted link_kind (λ q. 0) make empty_world tt (λ q. omega arith)
