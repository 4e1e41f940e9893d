-- ===== src/Route/Attributes/Setting.antt =====
-- What the getters and setters of the addresses of a RouteAddress do, failures included.
use Prim.Native.String.{String}
use nlcpp.Common.{◌≡◌, ◌≢◌, refl, Option, none, some}
use nlcpp.Common.Run.{M, Ends}
use nlcpp.Exception.{Errno, IsErrno, int_min, throw_code}
use nlcpp.Route.Fields.{AddressField, read_address, write_address}
use nlcpp.Route.Fields.Addresses.{Stored, NotStored, Read, NotRead, read_address-Read, write-Stored}
use nlcpp.Route.Attributes.{
  RtnlAddr, local, set_local, set_local_optional, peer, set_peer, set_peer_optional, broadcast,
  set_broadcast, set_broadcast_optional, multicast, set_multicast, set_multicast_optional, anycast,
  set_anycast, set_anycast_optional,
}

pub data Field : Type 0 where
  local_field peer_field broadcast_field multicast_field anycast_field : Field

-- The text of the exception of a field's setter.
unfoldable pub failure : Field → String
failure local_field = "failed to set local address"
failure peer_field = "failed to set peer address"
failure broadcast_field = "failed to set broadcast address"
failure multicast_field = "failed to set multicast address"
failure anycast_field = "failed to set anycast address"

module _ {S Addr : Type 0} where
  unfoldable pub field_of : RtnlAddr S Addr → Field → AddressField S Addr
  field_of rt local_field = rt.local_of
  field_of rt peer_field = rt.peer_of
  field_of rt broadcast_field = rt.broadcast_of
  field_of rt multicast_field = rt.multicast_of
  field_of rt anycast_field = rt.anycast_of

  unfoldable pub get_field : Errno → RtnlAddr S Addr → Field → M S (Option Addr)
  get_field e rt local_field = local e rt
  get_field e rt peer_field = peer e rt
  get_field e rt broadcast_field = broadcast e rt
  get_field e rt multicast_field = multicast e rt
  get_field e rt anycast_field = anycast e rt

  unfoldable pub set_field : Errno → RtnlAddr S Addr → Field → Addr → M S (Unit {0})
  set_field e rt local_field = set_local e rt
  set_field e rt peer_field = set_peer e rt
  set_field e rt broadcast_field = set_broadcast e rt
  set_field e rt multicast_field = set_multicast e rt
  set_field e rt anycast_field = set_anycast e rt

  unfoldable pub set_field_optional : Errno → RtnlAddr S Addr → Field → Option Addr → M S (Unit {0})
  set_field_optional e rt local_field = set_local_optional e rt
  set_field_optional e rt peer_field = set_peer_optional e rt
  set_field_optional e rt broadcast_field = set_broadcast_optional e rt
  set_field_optional e rt multicast_field = set_multicast_optional e rt
  set_field_optional e rt anycast_field = set_anycast_optional e rt

module _ {S Addr : Type 0} (e : Errno) (rt : RtnlAddr S Addr) where
  set_field-write :
      (which : Field) (laddr : Addr)
      → set_field e rt which laddr
        ≡ write_address e rt.addr (field_of rt which) (failure which) laddr
  unfolding set_field field_of failure set_local set_peer set_broadcast set_multicast set_anycast
  set_field-write local_field laddr = refl
  set_field-write peer_field laddr = refl
  set_field-write broadcast_field laddr = refl
  set_field-write multicast_field laddr = refl
  set_field-write anycast_field laddr = refl

  get_field-read : (which : Field) → get_field e rt which ≡ read_address rt.addr (field_of rt which)
  unfolding get_field field_of local peer broadcast multicast anycast
  get_field-read local_field = refl
  get_field-read peer_field = refl
  get_field-read broadcast_field = refl
  get_field-read multicast_field = refl
  get_field-read anycast_field = refl

  -- The getter of an address returns nothing where libnl has none, and else a clone of it, or it
  -- throws where that fails.
  get_field-Read :
      (which : Field) (s : S)
      → Ends
          (Read ((field_of rt which).get s) rt.addr s)
          (NotRead ((field_of rt which).get s) rt.addr s)
          (get_field e rt which s)
  get_field-Read which s =
      rw (get_field-read which) (read_address-Read rt.addr (field_of rt which) s)

  -- The setter of an address clones it, hands the clone to libnl and puts the clone, whatever libnl
  -- answers. It returns exactly where the clone was made and libnl reports no error, and else it
  -- throws: `runtime_error` for the clone, or what tells libnl's error under the text of the setter.
  -- The results of libnl are taken to be above the least `int`.
  pub set_field-Stored :
      (he : IsErrno e) (which : Field) (laddr : Addr) (s : S)
      → ((o : Option Addr) (s : S) → ((field_of rt which).set o s).0 ≢ int_min)
      → Ends
          (λ _ t. Stored rt.addr (field_of rt which) (rt.addr.clone laddr s) t)
          (NotStored e rt.addr (field_of rt which) (failure which) (rt.addr.clone laddr s))
          (set_field e rt which laddr s)
  set_field-Stored he which laddr s codes =
      rw (set_field-write which laddr)
        (write-Stored e rt.addr he (field_of rt which) (failure which) laddr s codes)

  -- The optional setter of an address is the plain one for an address. Without one it clones and puts
  -- nothing, and hands libnl a null pointer.
  set_field_optional_lem :
      (which : Field)
      → ((laddr : Addr) → set_field_optional e rt which (some laddr) ≡ set_field e rt which laddr)
        × ((s : S)
            → set_field_optional e rt which none s
              ≡ throw_code e
                  (failure which)
                  ((field_of rt which).set none s).0
                  ((field_of rt which).set none s).1)
  unfolding set_field set_field_optional field_of failure set_local set_peer set_broadcast
      set_multicast set_anycast set_local_optional set_peer_optional set_broadcast_optional
      set_multicast_optional set_anycast_optional
  set_field_optional_lem local_field = (λ a. refl, λ s. refl)
  set_field_optional_lem peer_field = (λ a. refl, λ s. refl)
  set_field_optional_lem broadcast_field = (λ a. refl, λ s. refl)
  set_field_optional_lem multicast_field = (λ a. refl, λ s. refl)
  set_field_optional_lem anycast_field = (λ a. refl, λ s. refl)
