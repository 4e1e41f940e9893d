-- ===== src/Route/Attributes.antt =====
-- The attributes of a RouteAddress of src/route.cpp. What libnl keeps is the state `S`, with the
-- address that the object wraps in it; an `nl_addr` is its pointer. The functions of libnl are
-- parameters.
pub mod Setting
pub mod Time
use Prim.Native.String.{String}
use nlcpp.Common.{ℕ, ◌-◌, ◌^◌, ◌%◌, ◌==◌, Bool, Option, none, some, if◌then◌else◌}
use nlcpp.Common.Int.{ℤ, pos, negsuc}
use nlcpp.Common.Run.{Run, M, ok, throws, runtime_error, ◌>>=◌, ◌>>◌, pure, throw}
use nlcpp.Exception.{Errno}
use nlcpp.Route.Fields.{
  AddressField, PlainField, AddrCalls, change, read_address, write_address, write_optional_address,
}

pub record RtnlAddr (S Addr : Type 0) : Type 0 where
  pub addr : AddrCalls S Addr
  pub local_of : AddressField S Addr
  pub peer_of : AddressField S Addr
  pub broadcast_of : AddressField S Addr
  pub multicast_of : AddressField S Addr
  pub anycast_of : AddressField S Addr
  pub get_label : S → Option String
  pub set_label : String → S → S
  pub ifindex_of : PlainField S ℤ
  pub family_of : PlainField S ℤ
  pub prefixlen_of : PlainField S ℕ
  pub scope_of : PlainField S ℕ
  pub get_flags : S → ℕ
  pub set_flags_in : ℕ → S → S
  pub unset_flags_in : ℕ → S → S
  pub valid_lifetime_of : PlainField S ℕ
  pub preferred_lifetime_of : PlainField S ℕ
  pub get_create_time : S → ℕ
  pub get_last_update_time : S → ℕ

-- The conversion of an `int64_t` to a `uint32_t`.
unfoldable pub to_uint32 : ℤ → ℕ
to_uint32 (pos n) = n % 2 ^ 32
to_uint32 (negsuc n) = 2 ^ 32 - 1 - n % 2 ^ 32

module _ {S Addr : Type 0} (e : Errno) (rt : RtnlAddr S Addr) where
  unfoldable pub local : M S (Option Addr)
  unfolding read_address
  local = read_address rt.addr rt.local_of

  unfoldable pub set_local : Addr → M S (Unit {0})
  unfolding write_address
  set_local = write_address e rt.addr rt.local_of "failed to set local address"

  unfoldable pub set_local_optional : Option Addr → M S (Unit {0})
  unfolding write_optional_address
  set_local_optional = write_optional_address e rt.addr rt.local_of "failed to set local address"

  unfoldable pub peer : M S (Option Addr)
  unfolding read_address
  peer = read_address rt.addr rt.peer_of

  unfoldable pub set_peer : Addr → M S (Unit {0})
  unfolding write_address
  set_peer = write_address e rt.addr rt.peer_of "failed to set peer address"

  unfoldable pub set_peer_optional : Option Addr → M S (Unit {0})
  unfolding write_optional_address
  set_peer_optional = write_optional_address e rt.addr rt.peer_of "failed to set peer address"

  unfoldable pub broadcast : M S (Option Addr)
  unfolding read_address
  broadcast = read_address rt.addr rt.broadcast_of

  unfoldable pub set_broadcast : Addr → M S (Unit {0})
  unfolding write_address
  set_broadcast = write_address e rt.addr rt.broadcast_of "failed to set broadcast address"

  unfoldable pub set_broadcast_optional : Option Addr → M S (Unit {0})
  unfolding write_optional_address
  set_broadcast_optional =
      write_optional_address e rt.addr rt.broadcast_of "failed to set broadcast address"

  unfoldable pub multicast : M S (Option Addr)
  unfolding read_address
  multicast = read_address rt.addr rt.multicast_of

  unfoldable pub set_multicast : Addr → M S (Unit {0})
  unfolding write_address
  set_multicast = write_address e rt.addr rt.multicast_of "failed to set multicast address"

  unfoldable pub set_multicast_optional : Option Addr → M S (Unit {0})
  unfolding write_optional_address
  set_multicast_optional =
      write_optional_address e rt.addr rt.multicast_of "failed to set multicast address"

  unfoldable pub anycast : M S (Option Addr)
  unfolding read_address
  anycast = read_address rt.addr rt.anycast_of

  unfoldable pub set_anycast : Addr → M S (Unit {0})
  unfolding write_address
  set_anycast = write_address e rt.addr rt.anycast_of "failed to set anycast address"

  unfoldable pub set_anycast_optional : Option Addr → M S (Unit {0})
  unfolding write_optional_address
  set_anycast_optional =
      write_optional_address e rt.addr rt.anycast_of "failed to set anycast address"

  unfoldable pub label : M S (Option String)
  label s = ok (rt.get_label s) s

  unfoldable pub set_label : String → M S (Unit {0})
  unfolding change
  set_label value = change (rt.set_label value)

  unfoldable pub ifindex : M S ℤ
  ifindex s = ok (rt.ifindex_of.get s) s

  unfoldable pub set_ifindex : ℤ → M S (Unit {0})
  unfolding change
  set_ifindex value = change (rt.ifindex_of.set value)

  unfoldable pub family : M S ℤ
  family s = ok (rt.family_of.get s) s

  unfoldable pub set_family : ℤ → M S (Unit {0})
  unfolding change
  set_family value = change (rt.family_of.set value)

  unfoldable pub prefixlen : M S ℕ
  prefixlen s = ok (rt.prefixlen_of.get s) s

  unfoldable pub set_prefixlen : ℕ → M S (Unit {0})
  unfolding change
  set_prefixlen value = change (rt.prefixlen_of.set value)

  unfoldable pub scope : M S ℕ
  scope s = ok (rt.scope_of.get s) s

  unfoldable pub set_scope : ℕ → M S (Unit {0})
  unfolding change
  set_scope value = change (rt.scope_of.set value)

  unfoldable pub flags : M S ℕ
  flags s = ok (rt.get_flags s) s

  unfoldable pub set_flags : ℕ → M S (Unit {0})
  unfolding change
  set_flags value = change (rt.set_flags_in value)

  unfoldable pub unset_flags : ℕ → M S (Unit {0})
  unfolding change
  unset_flags value = change (rt.unset_flags_in value)

  -- `0xFFFFFFFF` is "for ever".
  unfoldable pub valid_lifetime : M S (Option ℕ)
  valid_lifetime s =
      let sec = rt.valid_lifetime_of.get s in ok (if sec == 0xffff_ffff then none else some sec) s

  unfoldable pub set_valid_lifetime : ℤ → M S (Unit {0})
  unfolding change to_uint32
  set_valid_lifetime value = change (rt.valid_lifetime_of.set (to_uint32 value))

  -- `0xFFFFFFFF` is "for ever".
  unfoldable pub preferred_lifetime : M S (Option ℕ)
  preferred_lifetime s =
      let sec = rt.preferred_lifetime_of.get s in
      ok (if sec == 0xffff_ffff then none else some sec) s

  unfoldable pub set_preferred_lifetime : ℤ → M S (Unit {0})
  unfolding change to_uint32
  set_preferred_lifetime value = change (rt.preferred_lifetime_of.set (to_uint32 value))

  unfoldable pub create_time : M S ℕ
  create_time s = ok (rt.get_create_time s) s

  unfoldable pub last_update_time : M S ℕ
  last_update_time s = ok (rt.get_last_update_time s) s
