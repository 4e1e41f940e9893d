-- ===== src/Generic/Requests/Interfaces.antt =====
-- Nl80211::getInterface and getInterfaces from the request to the answer.
use nlcpp.Common.{ℕ, ◌≡◌, ◌≢◌, Option, none, some, List, [], ◌∷◌, ◌++◌, map}
use nlcpp.Common.Int.{ℤ, pos}
use nlcpp.Common.Run.{Ends, Ends-map}
use nlcpp.Exception.{Errno, IsErrno, int_min}
use nlcpp.Objects.Defs.{Libnl, IsAllocator, World}
use nlcpp.Objects.Rules.{Owned}
use nlcpp.Message.Put.{put_u32}
use nlcpp.Netlink.Socket.{Event, Socket}
use nlcpp.Netlink.Socket.Delivery.{messages, final_status}
use nlcpp.Netlink.Socket.Sync.{AllWaiting, concat}
use nlcpp.Generic.Attributes.{NlAttr}
use nlcpp.Generic.Nl80211.{
  InterfaceConfiguration, Nl80211Attr, no_interface, parse_interface_configuration, get_interface,
  get_interfaces,
}
use nlcpp.Generic.Replies.{last_of, get_interface-replies, get_interfaces-replies}
use nlcpp.Generic.Requests.{Wire, RequestNumbers, header_of, request_interface, request_interfaces}
use nlcpp.Generic.Requests.Sending.{Request, word, View, IsWire, HasRoom}
use nlcpp.Generic.Requests.Sent.{NotMade, NotSent, Posted, answered, bare-Ends, attribute-Ends}

-- What getInterface and getInterfaces ask the family.
unfoldable pub interface_request : RequestNumbers → Nl80211Attr → (family : ℤ) → ℕ → Request
interface_request n k family ifindex = record {
  header = some (header_of family (pos 0) n.nl80211_cmd_get_interface);
  attributes = word (pos k.attr_ifindex) ifindex ∷ [];
}

unfoldable pub interfaces_request : RequestNumbers → (family : ℤ) → Request
interfaces_request n family = record {
  header = some (header_of family n.nlm_f_dump n.nl80211_cmd_get_interface);
  attributes = [];
}

module _ {l : Libnl} {Attrs Addr Nested Attr E : Type 0} (c : IsAllocator l) (view : View l)
    (wire : Wire l Attrs Addr Nested) (law : IsWire wire view) (a : NlAttr Attrs Attr)
    (n : RequestNumbers) (k : Nl80211Attr) (ext : ℕ → ℕ) (replies : List (Event Attrs))
    (z : ℤ) where
  -- What a call of getInterfaces returns.
  abbrev pub Listed :
      World l
      → (family : ℤ) → Socket Attrs (List InterfaceConfiguration × E)
      → Option (Socket Attrs (List InterfaceConfiguration × E))
      → World l
      → Type 0
  Listed w family s r u =
      (r
        ≡ some (record s {
          call_status = z;
          client = (
            map (λ reply. parse_interface_configuration a k reply (no_interface k))
                (messages replies),
            s.client.1,
          );
        }))
      × Posted c view ext w wire law (interfaces_request n family) u

module _ {l : Libnl} {Attrs Addr Nested Attr E : Type 0} (c : IsAllocator l) (view : View l)
    (wire : Wire l Attrs Addr Nested) (law : IsWire wire view) (e : Errno) (he : IsErrno e)
    (a : NlAttr Attrs Attr) (n : RequestNumbers) (k : Nl80211Attr) (eproto : ℕ)
    (before : List (List (Event Attrs))) (b : List (Event Attrs))
    (after : List (List (Event Attrs))) (z : ℤ) (waiting : AllWaiting eproto before)
    (answer : final_status eproto b ≡ some z) (ext : ℕ → ℕ) where
  -- Where a new message has room for its header, `getInterface` hands one message to nl_send_auto, which
  -- asks the family for the interface of the index. It returns
  -- after the first delivery with a FINISH, an ACK or an ERROR, with the configuration that the last
  -- reply up to then is parsed to, and without a value where there was no reply; the message is gone.
  -- Otherwise it throws, because there is no message or because the index cannot be put into it,
  -- nothing has been sent, and no message is left. No result of nla_put_u32 is the least `int`.
  pub request_interface-answer :
      (w : World l) (family : ℤ) (ifindex : ℕ)
      → HasRoom wire view (header_of family (pos 0) n.nl80211_cmd_get_interface)
      → ((p : ℕ) (s : l.Store)
          → ((wire.nla p).nla_put_u32 (pos k.attr_ifindex) ifindex s).0 ≢ int_min)
      → (s : Socket Attrs (Option InterfaceConfiguration × E)) → Owned ext w
      → Ends
          (λ r u.
            (r
              ≡ some (record s {
                call_status = z;
                client = (
                  last_of
                      (λ reply. parse_interface_configuration a k reply (no_interface k))
                      none
                      (messages (concat before ++ b)),
                  s.client.1,
                );
              }))
            × Posted c view ext w wire law (interface_request n k family ifindex) u)
          (NotSent c view ext w wire law e "put_u32")
          (request_interface e wire a n eproto (before ++ (b ∷ after)) k family ifindex s w)
  unfolding request_interface put_u32 interface_request
  request_interface-answer w family ifindex room bounded s o =
      Ends-map
        (λ r u j.
          answered c view ext w wire law (interface_request n k family ifindex) _ _ r u
            (get_interface-replies a eproto before b after z waiting answer k s) j.0 j.1)
        (λ x u j. j)
        (attribute-Ends c view ext w wire law e he "put_u32" (word (pos k.attr_ifindex) ifindex)
          (λ p. (wire.nla p).nla_put_u32 (pos k.attr_ifindex) ifindex)
          (λ p t alive. law.word_put p (pos k.attr_ifindex) ifindex t alive) bounded
          (header_of family (pos 0) n.nl80211_cmd_get_interface)
          (get_interface a k eproto (before ++ (b ∷ after)) s) room o)

  pub request_interfaces-answer :
      (w : World l) (family : ℤ) (s : Socket Attrs (List InterfaceConfiguration × E))
      → HasRoom wire view (header_of family n.nlm_f_dump n.nl80211_cmd_get_interface)
      → Owned ext w
      → Ends
          (Listed c view wire law a n k ext (concat before ++ b) z w family s)
          (NotMade c view ext w)
          (request_interfaces e wire a n eproto (before ++ (b ∷ after)) k family s w)
  unfolding request_interfaces interfaces_request
  request_interfaces-answer w family s room o =
      Ends-map
        (λ r u j.
          answered c view ext w wire law (interfaces_request n family) _ _ r u
            (get_interfaces-replies a eproto before b after z waiting answer k s) j.0 j.1)
        (λ x u j. j)
        (bare-Ends c view ext w wire law e
          (header_of family n.nlm_f_dump n.nl80211_cmd_get_interface)
          (get_interfaces a k eproto (before ++ (b ∷ after)) s) room o)
