-- ===== src/Tests/Hops.antt =====
-- The theorems on NextHop and on the next hops of a Route, at a store of two hops.
use nlcpp.Common.{ℕ, zero, suc, Bool, true, false, some, List, [], ◌∷◌, ◌++◌, length}
use nlcpp.Objects.Defs.{Ptr}
use nlcpp.Route.NextHop.{NextHopCalls, next_hop_libnl, Hops}
use nlcpp.Route.NextHops.{RouteCalls, RouteHops}
use nlcpp.Route.NextHops.Ownership.{or_listed}

abbrev is_allocated : List Bool → ℕ → Bool
is_allocated [] p = false
is_allocated (b ∷ bs) zero = b
is_allocated (b ∷ bs) (suc p) = is_allocated bs p

abbrev append_true : List Bool → Ptr × List Bool
append_true s = (some (length s), s ++ (true ∷ []))

abbrev erase : ℕ → List Bool → List Bool
erase p [] = []
erase zero (b ∷ bs) = false ∷ bs
erase (suc p) (b ∷ bs) = b ∷ erase p bs

abbrev hop_calls : NextHopCalls
hop_calls = record {
  Store = List Bool;
  allocated = is_allocated;
  alloc = append_true;
  clone = λ p. append_true;
  free = erase;
}

-- A route as the list of its hops.
abbrev route_calls : RouteCalls (List ℕ)
route_calls = record { hops_of = λ r. r; add_hop = λ p r. r ++ (p ∷ []) }

abbrev nobody : ℕ → ℕ
nobody q = 0

-- Two objects, each with a hop.
abbrev two_hops : Hops hop_calls
two_hops = record { objects = some (some 0) ∷ some (some 1) ∷ []; store = true ∷ true ∷ [] }

-- One object and one hop of the route.
abbrev route_and_hop : RouteHops (next_hop_libnl hop_calls) (List ℕ)
route_and_hop = record {
  hops = record { objects = some (some 0) ∷ []; store = true ∷ true ∷ [] };
  route = 1 ∷ [];
}

abbrev owned_by_route : ℕ → ℕ
owned_by_route = or_listed (1 ∷ []) nobody
