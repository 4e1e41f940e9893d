-- ===== src/Route/NextHops.antt =====
-- The next hops of a Route of src/route.cpp: `add` and `nexthops`. The route's `rtnl_route` owns the
-- hops that it lists. Its functions are parameters.
pub mod Ownership
pub mod Listing
use nlcpp.Common.{ℕ, ◌≡◌, Bool, Option, none, some, List, [], ◌∷◌, ◌++◌, ◌==◌, if◌then◌else◌}
use nlcpp.Common.Run.{attempt, Run, M, ok, throws, fault, undefined, throw, ◌>>=◌, ◌>>◌, pure}
use nlcpp.Objects.Defs.{Ptr, Libnl, World}
use nlcpp.Route.NextHop.{next_hop_clone, next_hop_copy, next_hop_destroy, next_hop_take}

-- What `rtnl_route_foreach_nexthop` goes through, and `rtnl_route_add_nexthop`, which does not look at
-- a null pointer.
pub record RouteCalls (R : Type 0) : Type 0 where
  pub hops_of : R → List ℕ
  pub add_hop : ℕ → R → R

-- The documented behaviour: a hop is added behind the others.
pub record IsRouteCalls {R : Type 0} (rt : RouteCalls R) : Type 0 where
  pub hops_of-add_hop : (p : ℕ) (r : R) → rt.hops_of (rt.add_hop p r) ≡ rt.hops_of r ++ (p ∷ [])

-- The objects of NextHop, and one route.
pub record RouteHops (l : Libnl) (R : Type 0) : Type 0 where
  pub hops : World l
  pub route : R

module _ {l : Libnl} where
  -- The calls of the lambda, `presult->emplace_back(nh, create_copy_from_pointer)`. The vector has been
  -- given room for all, so its elements stay in place. An exception would leave the lambda into the C
  -- code of `rtnl_route_foreach_nexthop`, which is undefined.
  unfoldable pub copy_hops : List ℕ → (result : List ℕ) → M (World l) (List ℕ)
  unfolding next_hop_clone
  copy_hops [] result w = ok result w
  copy_hops (nh ∷ nhs) result w =
      attempt (next_hop_clone (some nh) w) (λ this. copy_hops nhs (result ++ (this ∷ [])))
        (λ e. undefined)

module _ {l : Libnl} {R : Type 0} where
  -- A member function of NextHop.
  abbrev pub lift_run {ℓ} : {A : Type ℓ} → R → Run (World l) A → Run (RouteHops l R) A
  lift_run r (ok a w) = ok a (record { hops = w; route = r })
  lift_run r (throws e w) = throws e (record { hops = w; route = r })
  lift_run r fault = fault

  abbrev pub on_hops {ℓ} : {A : Type ℓ} → M (World l) A → M (RouteHops l R) A
  on_hops m s = lift_run s.route (m s.hops)

  module _ (rt : RouteCalls R) where
    unfoldable pub call_add : Ptr → M (RouteHops l R) (Unit {0})
    call_add none s = fault
    call_add (some p) s =
        if l.refs s.hops.store p == 0
        then fault
        else ok tt (record s { route = rt.add_hop p s.route })

    -- Route & add(NextHop &&)
    unfoldable pub route_add_moved : ℕ → M (RouteHops l R) (Unit {0})
    unfolding next_hop_take call_add
    route_add_moved nexthop = do p ← on_hops (next_hop_take nexthop); call_add p

    -- Route & add(const NextHop &): the temporary copy is destroyed at the end of the statement.
    unfoldable pub route_add_copied : ℕ → M (RouteHops l R) (Unit {0})
    unfolding next_hop_copy route_add_moved next_hop_destroy
    route_add_copied nexthop = do
      temporary ← on_hops (next_hop_copy nexthop)
      route_add_moved temporary
      on_hops (next_hop_destroy temporary)

  -- vector<NextHop> nexthops() const
  unfoldable pub nexthops : RouteCalls R → M (RouteHops l R) (List ℕ)
  unfolding copy_hops
  nexthops rt s = on_hops (copy_hops (rt.hops_of s.route) []) s
