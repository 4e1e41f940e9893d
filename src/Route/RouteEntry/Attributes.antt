-- ===== src/Route/RouteEntry/Attributes.antt =====
-- The attributes of a Route of src/route.cpp, on the state `S` of its `rtnl_route`. The functions of
-- libnl are parameters.
pub mod Values
use nlcpp.Common.{ℕ, ◌%◌, Option, none, some}
use nlcpp.Common.Run.{M, ok, undefined, ◌>>=◌, ◌>>◌}
use nlcpp.Exception.{Errno, throw_code}
use nlcpp.Route.Fields.{AddressField, PlainField, AddrCalls, change, copy_address}

-- `scope`, `protocol` and `family` are bytes in libnl.
pub record RtnlRoute (S Addr : Type 0) : Type 0 where
  pub addr : AddrCalls S Addr
  pub scope_of : PlainField S ℕ
  pub protocol_of : PlainField S ℕ
  pub priority_of : PlainField S ℕ
  pub family_of : PlainField S ℕ
  pub dst_of : AddressField S Addr

-- RouteScope and RouteProtocol have the numbers of their constants, and hold any other number that
-- is not negative too.
abbrev pub RouteScope : Type 0
RouteScope = ℕ

abbrev pub RouteProtocol : Type 0
RouteProtocol = ℕ

-- `static_cast<uint8_t>` of such a number.
abbrev pub to_uint8 : ℕ → ℕ
to_uint8 n = n % 256

module _ {S Addr : Type 0} (rt : RtnlRoute S Addr) where
  unfoldable pub route_scope : M S RouteScope
  route_scope s = ok (rt.scope_of.get s) s

  unfoldable pub set_route_scope : RouteScope → M S (Unit {0})
  unfolding change
  set_route_scope value = change (rt.scope_of.set (to_uint8 value))

  unfoldable pub protocol : M S RouteProtocol
  protocol s = ok (rt.protocol_of.get s) s

  unfoldable pub set_protocol : RouteProtocol → M S (Unit {0})
  unfolding change
  set_protocol value = change (rt.protocol_of.set (to_uint8 value))

  unfoldable pub priority : M S ℕ
  priority s = ok (rt.priority_of.get s) s

  unfoldable pub set_priority : ℕ → M S (Unit {0})
  unfolding change
  set_priority value = change (rt.priority_of.set value)

  unfoldable pub route_family : M S ℕ
  route_family s = ok (rt.family_of.get s) s

  unfoldable pub set_route_family : ℕ → M S (Unit {0})
  unfolding change
  set_route_family value = change (rt.family_of.set value)

  -- `nl_addr_clone` does not look at a null pointer.
  unfoldable pub copy_dst : Option Addr → M S Addr
  unfolding copy_address
  copy_dst none = undefined
  copy_dst (some ptr) = copy_address rt.addr ptr

  unfoldable pub dst : M S Addr
  unfolding copy_dst
  dst s = copy_dst (rt.dst_of.get s) s

  -- libnl takes a reference of its own to the address.
  unfoldable pub set_dst : Errno → Addr → M S (Unit {0})
  unfolding throw_code
  set_dst e addr = do
    err ← λ s. ok (rt.dst_of.set (some addr) s).0 (rt.dst_of.set (some addr) s).1
    throw_code e "rtnl_route_set_dst failed" err
