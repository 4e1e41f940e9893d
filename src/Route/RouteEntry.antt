-- ===== src/Route/RouteEntry.antt =====
-- Route of src/route.cpp: the life of its objects, each with a counted reference to one
-- `rtnl_route`.
pub mod Lifetime
pub mod Attributes
use Prim.Native.String.{String}
use nlcpp.Common.{ℕ, ◌==◌, if◌then◌else◌, not, none}
use nlcpp.Common.Run.{M, runtime_error, ◌>>=◌, ◌>>◌, pure, throw, when}
use nlcpp.Objects.Defs.{
  Ptr, Libnl, World, is_null, member, set_member, construct, end_lifetime, call_alloc, call_get,
  call_put,
}

module _ {l : Libnl} where
  -- Route()
  unfoldable pub route_make : M (World l) ℕ
  unfolding call_alloc construct
  route_make = do
    route ← call_alloc
    if is_null route
        then throw (runtime_error "Failed to allocate route netlink route")
        else construct route

  -- Route(rtnl_route *, TakeOwnershipOfPointer)
  unfoldable pub route_take : Ptr → M (World l) ℕ
  unfolding construct
  route_take ptr = construct ptr

  -- Route(rtnl_route *, ShareOwnershipOfPointer)
  unfoldable pub route_share : Ptr → M (World l) ℕ
  unfolding call_get construct
  route_share ptr = do when (not (is_null ptr)) (call_get ptr); construct ptr

  -- Route(rtnl_route *), deprecated
  unfoldable pub route_from : Ptr → M (World l) ℕ
  unfolding route_share
  route_from ptr = route_share ptr

  -- Route(Route &&)
  unfoldable pub route_move : ℕ → M (World l) ℕ
  unfolding member construct set_member
  route_move other = do
    route ← member other
    this ← construct route
    set_member other none
    pure this

  -- operator=(Route &&)
  unfoldable pub route_move_assign : ℕ → ℕ → M (World l) ℕ
  unfolding member call_put set_member
  route_move_assign this other = if this == other then pure this else do
    old ← member this
    call_put old
    route ← member other
    set_member this route
    set_member other none
    pure this

  -- ~Route()
  unfoldable pub route_destroy : ℕ → M (World l) (Unit {0})
  unfolding member call_put end_lifetime
  route_destroy this = do route ← member this; call_put route; end_lifetime this
