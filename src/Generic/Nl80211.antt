-- ===== src/Generic/Nl80211.antt =====
-- src/nl80211.cpp and include/nlcpp/nl80211.h: wireless interfaces. The attribute numbers of
-- linux/nl80211.h are parameters.
use nlcpp.Common.{ℕ, zero, suc, Bool, false, not, ◌==◌, Option, none, some, List, [], ◌∷◌, ◌++◌}
use nlcpp.Netlink.Socket.{Event, Socket, send_message_sync_with}
use nlcpp.Generic.Attributes.{NlAttr}

-- InterfaceType has the numbers of its constants, and holds any other number too.
abbrev pub InterfaceType : Type 0
InterfaceType = ℕ

pub record InterfaceConfiguration : Type 0 where
  pub ifindex : ℕ
  pub wiphy : ℕ
  pub iftype : InterfaceType
  pub mac : List ℕ
  pub use4addr : Bool

-- linux/nl80211.h and linux/if_ether.h
pub record Nl80211Attr : Type 0 where
  pub attr_ifindex : ℕ
  pub attr_wiphy : ℕ
  pub attr_iftype : ℕ
  pub attr_mac : ℕ
  pub attr_4addr : ℕ
  pub eth_alen : ℕ

abbrev pub zeros : ℕ → List ℕ
zeros zero = []
zeros (suc n) = 0 ∷ zeros n

abbrev pub take : ℕ → List ℕ → List ℕ
take zero xs = []
take (suc n) [] = []
take (suc n) (x ∷ xs) = x ∷ take n xs

-- `InterfaceConfiguration {}`
abbrev pub no_interface : Nl80211Attr → InterfaceConfiguration
no_interface k = record {
  ifindex = 0;
  wiphy = 0;
  iftype = 0;
  mac = zeros k.eth_alen;
  use4addr = false;
}

-- The value of an attribute, or what was there before.
abbrev pub or_old : {A B : Type 0} → (A → B) → Option A → B → B
or_old f none old = old
or_old f (some x) old = f x

module _ {Attrs Attr : Type 0} (a : NlAttr Attrs Attr) (k : Nl80211Attr) where
  -- Nl80211::parseInterfaceConfiguration; `memcpy` takes the first ETH_ALEN bytes of the payload,
  -- which is taken to have them.
  unfoldable pub parse_interface_configuration :
      Attrs → InterfaceConfiguration → InterfaceConfiguration
  parse_interface_configuration message interface =
      let tb = a.table message in
      record {
        ifindex = or_old a.get_u32 (tb k.attr_ifindex) interface.ifindex;
        wiphy = or_old a.get_u32 (tb k.attr_wiphy) interface.wiphy;
        iftype = or_old a.get_u32 (tb k.attr_iftype) interface.iftype;
        mac = or_old (λ x. take k.eth_alen (a.bytes x)) (tb k.attr_mac) interface.mac;
        use4addr = or_old (λ x. not (a.get_u8 x == 0)) (tb k.attr_4addr) interface.use4addr;
      }

  -- Nl80211::getInterface
  unfoldable pub get_interface :
      {E : Type 0}
      → (eproto : ℕ) → List (List (Event Attrs))
      → Socket Attrs (Option InterfaceConfiguration × E)
      → Option (Socket Attrs (Option InterfaceConfiguration × E))
  unfolding send_message_sync_with
  get_interface eproto batches s =
      send_message_sync_with eproto
        (some (λ reply c. (some (parse_interface_configuration reply (no_interface k)), c.1)))
        batches (record s { client = (none, s.client.1) })

  -- Nl80211::getInterfaces
  unfoldable pub get_interfaces :
      {E : Type 0}
      → (eproto : ℕ) → List (List (Event Attrs))
      → Socket Attrs (List InterfaceConfiguration × E)
      → Option (Socket Attrs (List InterfaceConfiguration × E))
  unfolding send_message_sync_with
  get_interfaces eproto batches s =
      send_message_sync_with eproto
        (some
          (λ reply c. (c.0 ++ (parse_interface_configuration reply (no_interface k) ∷ []), c.1)))
        batches (record s { client = ([], s.client.1) })
