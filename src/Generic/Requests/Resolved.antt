-- ===== src/Generic/Requests/Resolved.antt =====
-- nl80211() asks for the id of the family of Nl80211, which its requests then name.
use Prim.Native.String.{String}
use nlcpp.Common.{ℕ, ◌≡◌, ◌≢◌, refl, ap, ◌∙◌, some, List, ◌∷◌, ◌++◌, ◌⊎◌, inl, inr}
use nlcpp.Common.Int.{ℤ, abs}
use nlcpp.Common.Run.{Run, Ends, returns, raises, Ends-map, Ends-then, ◌>>=◌}
use nlcpp.Exception.{Errno, IsErrno, int_min}
use nlcpp.Exception.Codes.{Tells}
use nlcpp.Objects.Defs.{Libnl, IsAllocator, World}
use nlcpp.Objects.Rules.{Owned}
use nlcpp.Netlink.Socket.{Event, Socket}
use nlcpp.Netlink.Socket.Calls.{NlCalls, resolve}
use nlcpp.Netlink.Socket.Calls.Answers.{IsCount, check-IsCount}
use nlcpp.Netlink.Socket.Delivery.{final_status}
use nlcpp.Netlink.Socket.Sync.{AllWaiting, concat}
use nlcpp.Generic.Attributes.{NlAttr}
use nlcpp.Generic.Nl80211.{InterfaceConfiguration, Nl80211Attr}
use nlcpp.Generic.Requests.{
  Wire, RequestNumbers, header_of, request_interfaces, nl80211_make, lift_store,
}
use nlcpp.Generic.Requests.Sending.{View, IsWire, HasRoom}
use nlcpp.Generic.Requests.Sent.{NotMade}
use nlcpp.Generic.Requests.Interfaces.{Listed, request_interfaces-answer}

-- The answer to the question for the family's id, and the world after it.
module _ {l : Libnl} (nl : NlCalls l.Store) (name : String) (w : World l) where
  abbrev pub family_id : ℤ
  family_id = (nl.genl_ctrl_resolve name w.store).0

  abbrev pub asked : World l
  asked = record w { store = (nl.genl_ctrl_resolve name w.store).1 }

module _ {l : Libnl} (e : Errno) (he : IsErrno e) (nl : NlCalls l.Store) (name : String)
    (w : World l) where
  make_lem :
      (r : Run l.Store ℤ)
      → Ends
          (λ family t.
            (t ≡ (asked nl name w).store)
            × (family ≡ family_id nl name w)
            × IsCount (family_id nl name w))
          (λ x t.
            (t ≡ (asked nl name w).store)
            × (¬ IsCount (family_id nl name w))
            × Tells e "genl_ctrl_resolve failed" (abs (family_id nl name w)) x)
          r
      → Ends
          (λ family v.
            (v ≡ asked nl name w) × (family ≡ family_id nl name w) × IsCount (family_id nl name w))
          (λ x v.
            (v ≡ asked nl name w)
            × (¬ IsCount (family_id nl name w))
            × Tells e "genl_ctrl_resolve failed" (abs (family_id nl name w)) x)
          (lift_store w r)
  make_lem r (returns (p, q, i)) = returns (ap (λ t. record w { store = t }) p, q, i)
  make_lem r (raises (p, q, i)) = raises (ap (λ t. record w { store = t }) p, q, i)

  make-IsCount :
      family_id nl name w ≢ int_min
      → Ends
          (λ family v.
            (v ≡ asked nl name w) × (family ≡ family_id nl name w) × IsCount (family_id nl name w))
          (λ x v.
            (v ≡ asked nl name w)
            × (¬ IsCount (family_id nl name w))
            × Tells e "genl_ctrl_resolve failed" (abs (family_id nl name w)) x)
          (nl80211_make e nl name w)
  unfolding nl80211_make resolve
  make-IsCount least = make_lem _ (
      check-IsCount e nl he "genl_ctrl_resolve failed" (nl.genl_ctrl_resolve name) w.store
        (family_id nl name w) (asked nl name w).store refl least)

module _ {l : Libnl} {Attrs Addr Nested Attr E : Type 0} (c : IsAllocator l) (view : View l)
    (wire : Wire l Attrs Addr Nested) (law : IsWire wire view) (e : Errno) (he : IsErrno e)
    (a : NlAttr Attrs Attr) (n : RequestNumbers) (k : Nl80211Attr) (eproto : ℕ)
    (before : List (List (Event Attrs))) (b : List (Event Attrs))
    (after : List (List (Event Attrs))) (z : ℤ) (waiting : AllWaiting eproto before)
    (answer : final_status eproto b ≡ some z) (ext : ℕ → ℕ) where
  -- nl80211() asks for the id of the family, and where a new message has room for its header,
  -- getInterfaces on what it returns then makes one message, which asks this family for all interfaces,
  -- and hands it to nl_send_auto; it is one more of those sent where that reports success, and none is
  -- sent otherwise. In both cases it returns after the first delivery with a FINISH, an ACK or an ERROR,
  -- with the configuration that each reply up to then is parsed to, in the order of the replies, and the
  -- message is gone. It throws what tells why there is no id, with all objects as they were, or that
  -- there is no message, and then nothing has been sent after the question for the id. That question
  -- leaves the references as they are and does not answer the least `int`.
  pub nl80211_interfaces-answer :
      (nl : NlCalls l.Store) (name : String) (w : World l)
      (s : Socket Attrs (List InterfaceConfiguration × E))
      → family_id nl name w ≢ int_min
      → ((q : ℕ) → l.refs (asked nl name w).store q ≡ l.refs w.store q)
      → HasRoom wire view (header_of (family_id nl name w) n.nlm_f_dump n.nl80211_cmd_get_interface)
      → Owned ext w
      → Ends
          (Listed c view wire law a n k ext
            (concat before ++ b)
            z
            (asked nl name w)
            (family_id nl name w)
            s)
          (λ x u.
            NotMade c view ext (asked nl name w) x u
            ⊎ ((u ≡ asked nl name w)
                × (¬ IsCount (family_id nl name w))
                × Tells e "genl_ctrl_resolve failed" (abs (family_id nl name w)) x))
          ((nl80211_make e nl name >>= λ family.
              request_interfaces e wire a n eproto (before ++ (b ∷ after)) k family s)
            w)
  nl80211_interfaces-answer nl name w s least refs room o =
      let v = asked nl name w in
      Ends-then (make-IsCount e he nl name w least)
        (λ family u j.
          rw (j.0, j.1)
            (Ends-map (λ r t i. i) (λ x t i. inl i)
              (request_interfaces-answer c view wire law e he a n k eproto before b after z waiting
                answer ext v (family_id nl name w) s room (λ q. refs q ∙ o q))))
        (λ x u j. inr j)
