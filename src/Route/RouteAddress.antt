-- ===== src/Route/RouteAddress.antt =====
-- RouteAddress of src/route.cpp: the life of its objects, each with a counted reference to one
-- `rtnl_addr`.
pub mod Lifetime
use Prim.Native.String.{String}
use nlcpp.Common.{ℕ, ◌==◌, if◌then◌else◌, not, none}
use nlcpp.Common.Run.{M, runtime_error, ◌>>=◌, ◌>>◌, pure, throw, when}
use nlcpp.Objects.Defs.{
  Ptr, Libnl, World, is_null, member, set_member, construct, end_lifetime, call_alloc, call_get,
  call_put,
}

module _ {l : Libnl} where
  -- RouteAddress()
  unfoldable pub route_address_make : M (World l) ℕ
  unfolding call_alloc construct
  route_address_make = do
    addr ← call_alloc
    if is_null addr
        then throw (runtime_error "Failed to allocate route netlink address")
        else construct addr

  -- RouteAddress(rtnl_addr *, TakeOwnershipOfPointer)
  unfoldable pub route_address_take : Ptr → M (World l) ℕ
  unfolding construct
  route_address_take ptr = construct ptr

  -- RouteAddress(rtnl_addr *, ShareOwnershipOfPointer)
  unfoldable pub route_address_share : Ptr → M (World l) ℕ
  unfolding call_get construct
  route_address_share ptr = do when (not (is_null ptr)) (call_get ptr); construct ptr

  -- RouteAddress(rtnl_addr *), deprecated
  unfoldable pub route_address_from : Ptr → M (World l) ℕ
  unfolding route_address_share
  route_address_from ptr = route_address_share ptr

  -- RouteAddress(RouteAddress &&)
  unfoldable pub route_address_move : ℕ → M (World l) ℕ
  unfolding member construct set_member
  route_address_move other = do
    addr ← member other
    this ← construct addr
    set_member other none
    pure this

  -- operator=(RouteAddress &&)
  unfoldable pub route_address_move_assign : ℕ → ℕ → M (World l) ℕ
  unfolding member call_put set_member
  route_address_move_assign this other = if this == other then pure this else do
    old ← member this
    call_put old
    addr ← member other
    set_member this addr
    set_member other none
    pure this

  -- ~RouteAddress()
  unfoldable pub route_address_destroy : ℕ → M (World l) (Unit {0})
  unfolding member call_put end_lifetime
  route_address_destroy this = do addr ← member this; call_put addr; end_lifetime this
