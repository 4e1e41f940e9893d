-- ===== src/Generic/Replies.antt =====
-- What the requests of Ctrl and Nl80211 return.
use nlcpp.Common.{ℕ, ◌≡◌, refl, ap, ◌∙◌, Option, none, some, List, [], ◌∷◌, ◌++◌, map}
use nlcpp.Common.Int.{ℤ}
use mathlib.Core.List.{append_assoc, append-nil}
use nlcpp.Netlink.Socket.{Event, Socket, call_valid}
use nlcpp.Netlink.Socket.Delivery.{messages, final_status, call_each}
use nlcpp.Netlink.Socket.Sync.{AllWaiting, concat, send_message_sync_with-answer}
use nlcpp.Generic.Attributes.{NlAttr}
use nlcpp.Generic.Ctrl.{
  GenericFamily, CtrlAttr, no_family, parse_generic_family, get_family, get_families,
}
use nlcpp.Generic.Nl80211.{
  InterfaceConfiguration, Nl80211Attr, no_interface, parse_interface_configuration, get_interface,
  get_interfaces,
}

-- The value of the last message, if there is one.
unfoldable pub last_of {ℓ κ} : {A : Type ℓ} {B : Type κ} → (A → B) → Option B → List A → Option B
last_of f o [] = o
last_of f o (x ∷ xs) = last_of f (some (f x)) xs

module _ {Msg B E : Type 0} (f : Msg → B) where
  call_each-collect :
      (ms : List Msg) (xs : List B) (e : E)
      → call_each (some (λ m (c : List B × E). (c.0 ++ (f m ∷ []), c.1))) ms (xs, e)
        ≡ (xs ++ map f ms, e)
  unfolding call_each call_valid
  call_each-collect [] xs e = rw append-nil
  call_each-collect (m ∷ ms) xs e =
      call_each-collect ms (xs ++ (f m ∷ [])) e
      ∙ ap (λ ys. (ys, e)) (append_assoc xs (f m ∷ []) (map f ms))

  call_each-last :
      (ms : List Msg) (o : Option B) (e : E)
      → call_each (some (λ m (c : Option B × E). (some (f m), c.1))) ms (o, e) ≡ (last_of f o ms, e)
  unfolding call_each call_valid last_of
  call_each-last [] o e = refl
  call_each-last (m ∷ ms) o e = call_each-last ms (some (f m)) e

module _ {Attrs Attr E : Type 0} (a : NlAttr Attrs Attr) (eproto : ℕ)
    (before : List (List (Event Attrs))) (b : List (Event Attrs))
    (after : List (List (Event Attrs))) (z : ℤ) (waiting : AllWaiting eproto before)
    (answer : final_status eproto b ≡ some z) where
  -- `getFamilies` returns after the first delivery with a FINISH, an ACK or an ERROR, with the family
  -- that each reply up to then is parsed to, in the order of the replies.
  pub get_families-replies :
      (k : CtrlAttr) (s : Socket Attrs (List GenericFamily × E))
      → get_families a k eproto (before ++ (b ∷ after)) s
        ≡ some (record s {
          call_status = z;
          client = (
            map (λ reply. parse_generic_family a k reply no_family) (messages (concat before ++ b)),
            s.client.1,
          );
        })
  unfolding get_families
  get_families-replies k s =
      send_message_sync_with-answer eproto _ before b after (record s { client = ([], s.client.1) })
        z waiting answer
      ∙ ap (λ c. some (record s { call_status = z; client = c }))
          (call_each-collect (λ reply. parse_generic_family a k reply no_family)
            (messages (concat before ++ b)) [] s.client.1)

  -- `getFamily` returns after the first delivery with a FINISH, an ACK or an ERROR, with the family
  -- that the last reply up to then is parsed to, and without a value where there was no reply.
  pub get_family-replies :
      (k : CtrlAttr) (s : Socket Attrs (Option GenericFamily × E))
      → get_family a k eproto (before ++ (b ∷ after)) s
        ≡ some (record s {
          call_status = z;
          client = (
            last_of
                (λ reply. parse_generic_family a k reply no_family)
                none
                (messages (concat before ++ b)),
            s.client.1,
          );
        })
  unfolding get_family
  get_family-replies k s =
      send_message_sync_with-answer eproto _ before b after
        (record s { client = (none, s.client.1) }) z waiting answer
      ∙ ap (λ c. some (record s { call_status = z; client = c }))
          (call_each-last (λ reply. parse_generic_family a k reply no_family)
            (messages (concat before ++ b)) none s.client.1)

  -- `getInterfaces` returns after the first delivery with a FINISH, an ACK or an ERROR, with the
  -- configuration that each reply up to then is parsed to, in the order of the replies.
  pub get_interfaces-replies :
      (k : Nl80211Attr) (s : Socket Attrs (List InterfaceConfiguration × E))
      → get_interfaces a k eproto (before ++ (b ∷ after)) s
        ≡ some (record s {
          call_status = z;
          client = (
            map
                (λ reply. parse_interface_configuration a k reply (no_interface k))
                (messages (concat before ++ b)),
            s.client.1,
          );
        })
  unfolding get_interfaces
  get_interfaces-replies k s =
      send_message_sync_with-answer eproto _ before b after (record s { client = ([], s.client.1) })
        z waiting answer
      ∙ ap (λ c. some (record s { call_status = z; client = c }))
          (call_each-collect (λ reply. parse_interface_configuration a k reply (no_interface k))
            (messages (concat before ++ b)) [] s.client.1)

  -- `getInterface` returns after the first delivery with a FINISH, an ACK or an ERROR, with the
  -- configuration that the last reply up to then is parsed to, and without a value where there was
  -- no reply.
  pub get_interface-replies :
      (k : Nl80211Attr) (s : Socket Attrs (Option InterfaceConfiguration × E))
      → get_interface a k eproto (before ++ (b ∷ after)) s
        ≡ some (record s {
          call_status = z;
          client = (
            last_of
                (λ reply. parse_interface_configuration a k reply (no_interface k))
                none
                (messages (concat before ++ b)),
            s.client.1,
          );
        })
  unfolding get_interface
  get_interface-replies k s =
      send_message_sync_with-answer eproto _ before b after
        (record s { client = (none, s.client.1) }) z waiting answer
      ∙ ap (λ c. some (record s { call_status = z; client = c }))
          (call_each-last (λ reply. parse_interface_configuration a k reply (no_interface k))
            (messages (concat before ++ b)) none s.client.1)
