-- ===== src/Route/NextHops/Ownership.antt =====
-- Each `rtnl_nexthop` has one owner: an object of NextHop, the route, or the outside.
use nlcpp.Common.{ℕ, ◌+◌, ◌≡◌, refl, List, [], ◌∷◌, ◌==◌, if◌then◌else◌}
use nlcpp.Common.Run.{Run, Ends, returns, raises, Thrown}
use nlcpp.Objects.Rules.{Owned}
use nlcpp.Route.NextHop.{NextHopCalls, next_hop_libnl, Hops}
use nlcpp.Route.NextHops.{RouteCalls, RouteHops, lift_run}

-- How often a list holds a number.
unfoldable pub occurrences : ℕ → List ℕ → ℕ
occurrences q [] = 0
occurrences q (x ∷ xs) = (if x == q then 1 else 0) + occurrences q xs

-- What the route and the outside own.
abbrev pub or_listed : List ℕ → (ℕ → ℕ) → ℕ → ℕ
or_listed hops ext q = occurrences q hops + ext q

module _ (n : NextHopCalls) {R : Type 0} (rt : RouteCalls R) where
  -- Each hop that is allocated has one owner.
  abbrev pub IsOwned : (ℕ → ℕ) → RouteHops (next_hop_libnl n) R → Type 0
  IsOwned ext s = Owned (or_listed (rt.hops_of s.route) ext) s.hops

  pub on_hops-Ends :
      {A : Type 0} {P : A → Hops n → Type 0} {Q : Thrown → Hops n → Type 0} {r : R}
      {m : Run (Hops n) A}
      → Ends P Q m
      → Ends {S = RouteHops (next_hop_libnl n) R}
          (λ a t. P a t.hops × (t.route ≡ r))
          (λ e t. Q e t.hops × (t.route ≡ r))
          (lift_run r m)
  on_hops-Ends (returns p) = returns (p, refl)
  on_hops-Ends (raises q) = raises (q, refl)
