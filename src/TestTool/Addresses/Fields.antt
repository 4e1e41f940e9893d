-- ===== src/TestTool/Addresses/Fields.antt =====
-- What the fields of address-list add to the line of an address.
use nlcpp.Common.{◌≡◌, refl, sym, ap, ◌∙◌, true, false, none, some, List, [], ◌∷◌, ◌++◌}
use mathlib.Core.List.{append_assoc, append-nil}
use nlcpp.Common.Run.{ok, pure, after_ok}
use nlcpp.Route.Attributes.{local, peer, broadcast, multicast, anycast, prefixlen}
use nlcpp.Route.Fields.{AddressField, read_address, copy_found, copy_address, check_copy}
use nlcpp.TestTool.Line.{Word}
use nlcpp.TestTool.Number.{codes, word_eq}
use nlcpp.TestTool.State.{show_nat}
use nlcpp.TestTool.Addresses.{AddressCalls, shown_if, field_text, address_item, show_address}

-- The fields that are addresses.
pub data AddressName : Type 0 where
  local_name peer_name broadcast_name multicast_name anycast_name : AddressName

unfoldable pub name_text : AddressName → Word
name_text local_name = codes "local"
name_text peer_name = codes "peer"
name_text broadcast_name = codes "broadcast"
name_text multicast_name = codes "multicast"
name_text anycast_name = codes "anycast"

-- None of the fields.
pub record IsOther (field : Word) : Type 0 where
  pub not_address : (name : AddressName) → word_eq field (name_text name) ≡ false
  pub not_prefixlen : word_eq field (codes "prefixlen") ≡ false

module _ {S Link Object Addr Route : Type 0} (c : AddressCalls S Link Object Addr Route) where
  unfoldable pub named_field : AddressName → AddressField Object Addr
  named_field local_name = c.rtnl_addr.local_of
  named_field peer_name = c.rtnl_addr.peer_of
  named_field broadcast_name = c.rtnl_addr.broadcast_of
  named_field multicast_name = c.rtnl_addr.multicast_of
  named_field anycast_name = c.rtnl_addr.anycast_of

  -- A field adds the text of the address that libnl has under its name, of which a copy is made and
  -- given back, or `none`, or the length of the prefix. Any other field adds nothing.
  pub data FieldText : (field : Word) (o : Object) (text : Word) (after : Object) → Type 0 where
    unset :
        {o : Object} (name : AddressName)
        → (named_field name).get o ≡ none
        → FieldText (name_text name) o (codes " none") o
    address :
        {o : Object} (name : AddressName) (a copy : Addr) (after : Object)
        → (named_field name).get o ≡ some a
        → c.rtnl_addr.addr.clone a o ≡ (some copy, after)
        → FieldText
            (name_text name)
            o
            (codes " " ++ c.nl_addr2str copy)
            (c.rtnl_addr.addr.put copy after)
    length_of_prefix :
        {o : Object}
        → FieldText (codes "prefixlen") o (codes " " ++ show_nat (c.rtnl_addr.prefixlen_of.get o)) o
    other : {field : Word} {o : Object} → IsOther field → FieldText field o [] o

  pub data FieldTexts
      : (fields : List Word) (o : Object) (text : Word) (after : Object) → Type 0 where
    no_field : {o : Object} → FieldTexts [] o [] o
    next_field :
        {field : Word} {fields : List Word} {o u v : Object} {text texts : Word}
        → FieldText field o text u
        → FieldTexts fields u texts v
        → FieldTexts (field ∷ fields) o (text ++ texts) v

  shown-unset :
      (f : AddressField Object Addr) (o : Object)
      → f.get o ≡ none
      → shown_if c true (read_address c.rtnl_addr.addr f) o ≡ ok (codes " none") o
  unfolding read_address copy_found show_address
  shown-unset f o h = rw h refl

  shown-address :
      (f : AddressField Object Addr) (o after : Object) (a copy : Addr)
      → f.get o ≡ some a
      → c.rtnl_addr.addr.clone a o ≡ (some copy, after)
      → shown_if c true (read_address c.rtnl_addr.addr f) o
        ≡ ok (codes " " ++ c.nl_addr2str copy) (c.rtnl_addr.addr.put copy after)
  unfolding read_address copy_found copy_address check_copy show_address
  shown-address f o after a copy h k = rw (h, k) refl

  -- What a getter gives is all that its field adds.
  field_text-named :
      (name : AddressName) (o after : Object) (text : Word)
      → shown_if c true (read_address c.rtnl_addr.addr (named_field name)) o ≡ ok text after
      → field_text c (name_text name) o ≡ ok text after
  unfolding field_text name_text named_field local peer broadcast multicast anycast
  field_text-named local_name o after text h =
      after_ok (λ w. pure (w ++ [])) h ∙ ap (λ w. ok w after) (append-nil text)
  field_text-named peer_name o after text h =
      after_ok (λ w. pure (w ++ [])) h ∙ ap (λ w. ok w after) (append-nil text)
  field_text-named broadcast_name o after text h =
      after_ok (λ w. pure (w ++ [])) h ∙ ap (λ w. ok w after) (append-nil text)
  field_text-named multicast_name o after text h =
      after_ok (λ w. pure (w ++ [])) h ∙ ap (λ w. ok w after) (append-nil text)
  field_text-named anycast_name o after text h = after_ok (λ w. pure w) h

  field_text-FieldText :
      (field : Word) (o after : Object) (text : Word)
      → FieldText field o text after
      → field_text c field o ≡ ok text after
  unfolding field_text name_text prefixlen
  field_text-FieldText field o after text (unset name h) =
      field_text-named name o o (codes " none") (shown-unset (named_field name) o h)
  field_text-FieldText field o after text (address name a copy cloned h k) =
      field_text-named name o (c.rtnl_addr.addr.put copy cloned) (codes " " ++ c.nl_addr2str copy)
        (shown-address (named_field name) o cloned a copy h k)
  field_text-FieldText field o after text length_of_prefix = refl
  field_text-FieldText field o after text (other h) =
      rw
        (
          h.not_address local_name,
          h.not_address peer_name,
          h.not_address broadcast_name,
          h.not_address multicast_name,
          h.not_address anycast_name,
          h.not_prefixlen,
        )
        refl

  -- The line of an address.
  pub address_item-FieldTexts :
      (fields : List Word) (o after : Object) (written text : Word)
      → FieldTexts fields o text after
      → address_item c written fields o ≡ ok (written ++ text) after
  unfolding address_item
  address_item-FieldTexts fields o after written text no_field =
      ap (λ w. ok w o) (sym (append-nil written))
  address_item-FieldTexts fields o after written text
        (next_field {field} {fields = fs} {u} {text = t} {texts} h hs) =
      after_ok (λ w. address_item c (written ++ w) fs) (field_text-FieldText field o u t h)
      ∙ address_item-FieldTexts fs u after (written ++ t) texts hs
      ∙ ap (λ w. ok w after) (append_assoc written t texts)
