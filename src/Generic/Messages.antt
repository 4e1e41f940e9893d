-- ===== src/Generic/Messages.antt =====
-- GenericSocket of src/generic.cpp: the callbacks that it gives to its Socket. A Message and a
-- GenericNetlinkMessage that share an `nl_msg` are the values `Msg` and `Generic`.
use nlcpp.Common.{ℕ, ◌≡◌, refl, ap, ◌∙◌, Option, some, List, [], ◌∷◌, ◌++◌, map}
use nlcpp.Common.Int.{ℤ}
use nlcpp.Netlink.Socket.{Event, Socket, Callback, call_valid, receive, send_message_sync_with}
use nlcpp.Netlink.Socket.Delivery.{messages, final_status, call_each, receive-seen}
use nlcpp.Netlink.Socket.Sync.{AllWaiting, concat, send_message_sync_with-answer}

module _ {Msg Generic Client : Type 0} (generic_of : Msg → Generic) where
  -- `[callback](Message msg) { callback(GenericNetlinkMessage(msg.get())); }`
  unfoldable pub generic_callback : Callback Generic Client → Callback Msg Client
  generic_callback callback msg c = callback (generic_of msg) c

  -- GenericSocket::sendMessageSync
  unfoldable pub send_generic_sync_with :
      (eproto : ℕ)
      → Callback Generic Client
      → List (List (Event Msg))
      → Socket Msg Client
      → Option (Socket Msg Client)
  unfolding generic_callback send_message_sync_with
  send_generic_sync_with eproto callback batches s =
      send_message_sync_with eproto (some (generic_callback callback)) batches s

  -- GenericSocket::onValidMessage
  unfoldable pub on_valid_message : Callback Generic Client → Socket Msg Client → Socket Msg Client
  unfolding generic_callback
  on_valid_message callback s = record s { valid_callback = some (generic_callback callback) }

  call_each-generic :
      (callback : Callback Generic Client) (ms : List Msg) (c : Client)
      → call_each (some (generic_callback callback)) ms c
        ≡ call_each (some callback) (map generic_of ms) c
  unfolding call_each call_valid generic_callback
  call_each-generic callback [] c = refl
  call_each-generic callback (m ∷ ms) c = call_each-generic callback ms (callback (generic_of m) c)

  -- `sendMessageSync` of a GenericSocket hands its callback every valid message, as a generic one, up to
  -- the end of the first delivery that has a FINISH, an ACK or an ERROR, and a callback that is registered
  -- stays registered and is not called. Then it gets what is delivered outside of such a call: each
  -- valid message, in order, as a generic one.
  pub generic-delivered :
      (eproto : ℕ) (callback registered : Callback Generic Client)
      (before : List (List (Event Msg))) (b later : List (Event Msg))
      (after : List (List (Event Msg))) (s : Socket Msg Client) (z : ℤ)
      → AllWaiting eproto before
      → final_status eproto b ≡ some z
      → (t : Socket Msg Client) × (send_generic_sync_with eproto callback
            (before ++ (b ∷ after))
            (on_valid_message registered s)
          ≡ some t)
        × (t.client
            ≡ call_each (some callback) (map generic_of (messages (concat before ++ b))) s.client)
        × ((receive eproto later t).client
            ≡ call_each (some registered) (map generic_of (messages later)) t.client)
  unfolding send_generic_sync_with on_valid_message
  generic-delivered eproto callback registered before b later after s z waiting status = (
    _,
    send_message_sync_with-answer eproto (some (generic_callback callback)) before b after
        (on_valid_message registered s) z waiting status,
    call_each-generic callback (messages (concat before ++ b)) s.client,
    ap (λ x. x.client) (receive-seen eproto later _)
        ∙ call_each-generic registered (messages later) _,
  )
