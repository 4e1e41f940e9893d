-- ===== src/Generic/Requests/Families.antt =====
-- Ctrl::getFamily and getFamilies from the request to the answer.
use Prim.Native.String.{String}
use nlcpp.Common.{ℕ, ◌≡◌, ◌≢◌, Option, none, some, List, [], ◌∷◌, ◌++◌, map}
use nlcpp.Common.Int.{ℤ, pos}
use nlcpp.Common.Run.{Ends, Ends-map}
use nlcpp.Exception.{Errno, IsErrno, int_min}
use nlcpp.Objects.Defs.{Libnl, IsAllocator, World}
use nlcpp.Objects.Rules.{Owned}
use nlcpp.Message.Put.{put_string}
use nlcpp.Netlink.Socket.{Event, Socket}
use nlcpp.Netlink.Socket.Delivery.{messages, final_status}
use nlcpp.Netlink.Socket.Sync.{AllWaiting, concat}
use nlcpp.Generic.Attributes.{NlAttr}
use nlcpp.Generic.Ctrl.{
  GenericFamily, CtrlAttr, no_family, parse_generic_family, get_family, get_families,
}
use nlcpp.Generic.Replies.{last_of, get_family-replies, get_families-replies}
use nlcpp.Generic.Requests.{Wire, RequestNumbers, header_of, request_family, request_families}
use nlcpp.Generic.Requests.Sending.{Request, text, View, IsWire, HasRoom}
use nlcpp.Generic.Requests.Sent.{NotMade, NotSent, Posted, answered, bare-Ends, attribute-Ends}

-- What getFamily and getFamilies ask.
unfoldable pub family_request : RequestNumbers → CtrlAttr → String → Request
family_request n k name = record {
  header = some (header_of n.genl_id_ctrl (pos 0) n.ctrl_cmd_getfamily);
  attributes = text (pos k.family_name) name ∷ [];
}

unfoldable pub families_request : RequestNumbers → Request
families_request n = record {
  header = some (header_of n.genl_id_ctrl n.nlm_f_dump n.ctrl_cmd_getfamily);
  attributes = [];
}

module _ {l : Libnl} {Attrs Addr Nested Attr E : Type 0} (c : IsAllocator l) (view : View l)
    (wire : Wire l Attrs Addr Nested) (law : IsWire wire view) (e : Errno) (a : NlAttr Attrs Attr)
    (n : RequestNumbers) (k : CtrlAttr) (eproto : ℕ) (before : List (List (Event Attrs)))
    (b : List (Event Attrs)) (after : List (List (Event Attrs))) (z : ℤ)
    (waiting : AllWaiting eproto before) (answer : final_status eproto b ≡ some z) (ext : ℕ → ℕ)
    (w : World l) (o : Owned ext w) where
  -- Where a new message has room for its header, `getFamily` makes one message, which asks the nlctrl
  -- family for the family of the name, and hands it to nl_send_auto; it is one more of those sent where
  -- that reports success, and none is sent otherwise. In both cases it returns after the first delivery
  -- with a FINISH, an ACK or an ERROR, with the family that the last reply up to then is parsed to, and
  -- without a value where there was no reply; the message is gone. It throws where there is no message
  -- or the name cannot be put into it, and then nothing has been sent, and no message is left. No result
  -- of nla_put_string is the least `int`.
  pub request_family-answer :
      (he : IsErrno e) (name : String)
      → HasRoom wire view (header_of n.genl_id_ctrl (pos 0) n.ctrl_cmd_getfamily)
      → ((p : ℕ) (s : l.Store)
          → ((wire.nla p).nla_put_string (pos k.family_name) name s).0 ≢ int_min)
      → (s : Socket Attrs (Option GenericFamily × E))
      → Ends
          (λ r u.
            (r
              ≡ some (record s {
                call_status = z;
                client = (
                  last_of
                      (λ reply. parse_generic_family a k reply no_family)
                      none
                      (messages (concat before ++ b)),
                  s.client.1,
                );
              }))
            × Posted c view ext w wire law (family_request n k name) u)
          (NotSent c view ext w wire law e "put")
          (request_family e wire a n eproto (before ++ (b ∷ after)) k name s w)
  unfolding request_family put_string family_request
  request_family-answer he name room bounded s =
      Ends-map
        (λ r u j.
          answered c view ext w wire law (family_request n k name) _ _ r u
            (get_family-replies a eproto before b after z waiting answer k s) j.0 j.1)
        (λ x u j. j)
        (attribute-Ends c view ext w wire law e he "put" (text (pos k.family_name) name)
          (λ p. (wire.nla p).nla_put_string (pos k.family_name) name)
          (λ p t alive. law.string_put p (pos k.family_name) name t alive) bounded
          (header_of n.genl_id_ctrl (pos 0) n.ctrl_cmd_getfamily)
          (get_family a k eproto (before ++ (b ∷ after)) s) room o)

  -- Where a new message has room for its header, `getFamilies` hands one message to nl_send_auto, which
  -- asks the nlctrl family for all families. It returns after the first delivery with a FINISH, an ACK or an ERROR, with the family that each reply up to then is
  -- parsed to, in the order of the replies; the message is gone. Otherwise there is no message, it
  -- throws, and nothing has been sent.
  pub request_families-answer :
      (s : Socket Attrs (List GenericFamily × E))
      → HasRoom wire view (header_of n.genl_id_ctrl n.nlm_f_dump n.ctrl_cmd_getfamily)
      → Ends
          (λ r u.
            (r
              ≡ some (record s {
                call_status = z;
                client = (
                  map
                      (λ reply. parse_generic_family a k reply no_family)
                      (messages (concat before ++ b)),
                  s.client.1,
                );
              }))
            × Posted c view ext w wire law (families_request n) u)
          (NotMade c view ext w)
          (request_families e wire a n eproto (before ++ (b ∷ after)) k s w)
  unfolding request_families families_request
  request_families-answer s room =
      Ends-map
        (λ r u j.
          answered c view ext w wire law (families_request n) _ _ r u
            (get_families-replies a eproto before b after z waiting answer k s) j.0 j.1)
        (λ x u j. j)
        (bare-Ends c view ext w wire law e
          (header_of n.genl_id_ctrl n.nlm_f_dump n.ctrl_cmd_getfamily)
          (get_families a k eproto (before ++ (b ∷ after)) s) room o)
