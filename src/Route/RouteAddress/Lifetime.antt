-- ===== src/Route/RouteAddress/Lifetime.antt =====
-- Objects of RouteAddress keep the reference counts of their `rtnl_addr` right.
use nlcpp.Common.{◌≡◌}
use nlcpp.Common.Run.{runtime_error}
use nlcpp.Objects.Defs.{Libnl, IsCounted}
use nlcpp.Objects.Handle.{
  alloc_object, share_object, move_object, move_assign_object, destroy_object,
}
use nlcpp.Objects.Handle.Life.{alloc_object-ok, construct-ok, share_object-ok}
use nlcpp.Objects.Class.{Class, IsClass}
use nlcpp.Objects.Class.Standard.{object-IsMoving}
use nlcpp.Route.RouteAddress.{
  route_address_make, route_address_take, route_address_share, route_address_move,
  route_address_move_assign, route_address_destroy,
}

abbrev pub route_address_class : (l : Libnl) → Class l
route_address_class l = record {
  IsFailure = λ e. e ≡ runtime_error "Failed to allocate route netlink address";
  make = route_address_make;
  take_ownership = route_address_take;
  share_ownership = route_address_share;
  move = route_address_move;
  move_assign = route_address_move_assign;
  destroy = route_address_destroy;
}

-- Every special member function of `RouteAddress` is defined on live objects, changes the objects as the
-- class interface says, and leaves each reference of libnl owned by one object or by the outside.
pub route_address_class-IsClass : (l : Libnl) → IsCounted l → IsClass l (route_address_class l)
unfolding route_address_make route_address_take route_address_share route_address_move
    route_address_move_assign route_address_destroy alloc_object share_object move_object
    move_assign_object destroy_object
route_address_class-IsClass l c = record {
  make_law = λ ext w. alloc_object-ok c.allocator ext w "Failed to allocate route netlink address";
  take_law = construct-ok c.allocator;
  share_law = share_object-ok c;
  moving = object-IsMoving c.allocator;
}
