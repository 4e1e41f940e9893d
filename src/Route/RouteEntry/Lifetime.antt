-- ===== src/Route/RouteEntry/Lifetime.antt =====
-- Objects of Route keep the reference counts of their `rtnl_route` right.
use nlcpp.Common.{◌≡◌}
use nlcpp.Common.Run.{runtime_error}
use nlcpp.Objects.Defs.{Libnl, IsCounted}
use nlcpp.Objects.Handle.{
  alloc_object, share_object, move_object, move_assign_object, destroy_object,
}
use nlcpp.Objects.Handle.Life.{alloc_object-ok, construct-ok, share_object-ok}
use nlcpp.Objects.Class.{Class, IsClass}
use nlcpp.Objects.Class.Standard.{object-IsMoving}
use nlcpp.Route.RouteEntry.{
  route_make, route_take, route_share, route_move, route_move_assign, route_destroy,
}

abbrev pub route_class : (l : Libnl) → Class l
route_class l = record {
  IsFailure = λ e. e ≡ runtime_error "Failed to allocate route netlink route";
  make = route_make;
  take_ownership = route_take;
  share_ownership = route_share;
  move = route_move;
  move_assign = route_move_assign;
  destroy = route_destroy;
}

-- Every special member function of `Route` is defined on live objects, changes the objects as the
-- class interface says, and leaves each reference of libnl owned by one object or by the outside.
pub route_class-IsClass : (l : Libnl) → IsCounted l → IsClass l (route_class l)
unfolding route_make route_take route_share route_move route_move_assign route_destroy alloc_object
    share_object move_object move_assign_object destroy_object
route_class-IsClass l c = record {
  make_law = λ ext w. alloc_object-ok c.allocator ext w "Failed to allocate route netlink route";
  take_law = construct-ok c.allocator;
  share_law = share_object-ok c;
  moving = object-IsMoving c.allocator;
}
