-- ===== src/Route/RouteLink.antt =====
-- RouteLink of src/route.cpp: the life of its objects, each with a counted reference to one
-- `rtnl_link`.
pub mod Lifetime
pub mod Attributes
use Prim.Native.String.{String}
use nlcpp.Common.{ℕ, ◌==◌, if◌then◌else◌, not, none}
use nlcpp.Common.Run.{M, runtime_error, ◌>>=◌, ◌>>◌, pure, throw, when}
use nlcpp.Objects.Defs.{
  Ptr, Libnl, World, is_null, member, set_member, construct, end_lifetime, call_alloc, call_get,
  call_put,
}

module _ {l : Libnl} where
  -- RouteLink()
  unfoldable pub route_link_make : M (World l) ℕ
  unfolding call_alloc construct
  route_link_make = do
    link ← call_alloc
    if is_null link
        then throw (runtime_error "Failed to allocate route netlink link")
        else construct link

  -- RouteLink(rtnl_link *, TakeOwnershipOfPointer)
  unfoldable pub route_link_take : Ptr → M (World l) ℕ
  unfolding construct
  route_link_take ptr = construct ptr

  -- RouteLink(rtnl_link *, ShareOwnershipOfPointer)
  unfoldable pub route_link_share : Ptr → M (World l) ℕ
  unfolding call_get construct
  route_link_share ptr = do when (not (is_null ptr)) (call_get ptr); construct ptr

  -- RouteLink(rtnl_link *), deprecated
  unfoldable pub route_link_from : Ptr → M (World l) ℕ
  unfolding route_link_share
  route_link_from ptr = route_link_share ptr

  -- RouteLink(RouteLink &&)
  unfoldable pub route_link_move : ℕ → M (World l) ℕ
  unfolding member construct set_member
  route_link_move other = do
    link ← member other
    this ← construct link
    set_member other none
    pure this

  -- operator=(RouteLink &&)
  unfoldable pub route_link_move_assign : ℕ → ℕ → M (World l) ℕ
  unfolding member call_put set_member
  route_link_move_assign this other = if this == other then pure this else do
    old ← member this
    call_put old
    link ← member other
    set_member this link
    set_member other none
    pure this

  -- ~RouteLink()
  unfoldable pub route_link_destroy : ℕ → M (World l) (Unit {0})
  unfolding member call_put end_lifetime
  route_link_destroy this = do link ← member this; call_put link; end_lifetime this

  -- RouteLinkCache::getByName, from what `rtnl_link_get_by_name` found: a reference of the caller's, or
  -- null where there is no such link.
  unfoldable pub get_by_name : (found : Ptr) → M (World l) ℕ
  unfolding route_link_take
  get_by_name found = route_link_take found
