-- ===== src/Netlink/Socket/Delivery.antt =====
-- What a sequence of delivered events means for a socket: the messages in it, and the status that
-- its last terminating event sets.
use nlcpp.Common.{
  ℕ, zero, suc, ◌≡◌, refl, sym, ap, ◌∙◌, Option, none, some, List, [], ◌∷◌, ◌++◌, arith,
}
use nlcpp.Common.Int.{ℤ, pos, negsuc, neg}
use nlcpp.Netlink.Socket.{
  Event, valid, finish, ack, error, Callback, Socket, call_valid, handle, receive,
}

unfoldable pub or_else : Option ℤ → Option ℤ → Option ℤ
or_else none o = o
or_else (some z) o = some z

module _ {Msg : Type 0} where
  -- The valid messages, in order.
  unfoldable pub messages : List (Event Msg) → List Msg
  messages [] = []
  messages (valid m ∷ es) = m ∷ messages es
  messages (finish ∷ es) = messages es
  messages (ack ∷ es) = messages es
  messages (error err ∷ es) = messages es

  -- The status that an event reports: none for a message, 0 for FINISH and ACK, and for ERROR the error
  -- or, where that is positive, the protocol error.
  unfoldable pub outcome : ℕ → Event Msg → Option ℤ
  outcome eproto (valid m) = none
  outcome eproto finish = some (pos 0)
  outcome eproto ack = some (pos 0)
  outcome eproto (error (pos zero)) = some (pos 0)
  outcome eproto (error (pos (suc n))) = some (neg eproto)
  outcome eproto (error (negsuc n)) = some (negsuc n)

  -- The status after the events, if any of them terminates.
  unfoldable pub final_status : ℕ → List (Event Msg) → Option ℤ
  final_status eproto [] = none
  final_status eproto (e ∷ es) = or_else (final_status eproto es) (outcome eproto e)

  pub messages-append :
      (xs ys : List (Event Msg)) → messages (xs ++ ys) ≡ messages xs ++ messages ys
  unfolding messages
  messages-append [] ys = refl
  messages-append (valid m ∷ es) ys = rw (messages-append es ys)
  messages-append (finish ∷ es) ys = messages-append es ys
  messages-append (ack ∷ es) ys = messages-append es ys
  messages-append (error err ∷ es) ys = messages-append es ys

module _ {Msg Client : Type 0} where
  -- The callback, called for one message after the other.
  unfoldable pub call_each : Option (Callback Msg Client) → List Msg → Client → Client
  call_each f [] c = c
  call_each f (m ∷ ms) c = call_each f ms (call_valid f m c)

  -- The socket after it has seen the events.
  abbrev pub seen : Option ℤ → List Msg → Socket Msg Client → Socket Msg Client
  seen o ms s = record s {
    call_status = elim o [ none ↦ s.call_status | some z ↦ z ];
    client = call_each s.valid_callback ms s.client;
  }

  call_each-append :
      (f : Option (Callback Msg Client)) (xs ys : List Msg) (c : Client)
      → call_each f (xs ++ ys) c ≡ call_each f ys (call_each f xs c)
  unfolding call_each
  call_each-append f [] ys c = refl
  call_each-append f (x ∷ xs) ys c = call_each-append f xs ys (call_valid f x c)

  handle-seen :
      (eproto : ℕ) (e : Event Msg) (s : Socket Msg Client)
      → (handle eproto e s).0 ≡ seen (outcome eproto e) (messages (e ∷ [])) s
  unfolding handle outcome messages call_each call_valid
  handle-seen eproto (valid m) s = refl
  handle-seen eproto finish s = refl
  handle-seen eproto ack s = refl
  handle-seen eproto (error (pos zero)) s = refl
  handle-seen eproto (error (pos (suc n))) s = ground arith
  handle-seen eproto (error (negsuc n)) s = refl

  pub seen-seen :
      (a b : Option ℤ) (xs ys : List Msg) (s : Socket Msg Client)
      → seen b ys (seen a xs s) ≡ seen (or_else b a) (xs ++ ys) s
  unfolding or_else
  seen-seen a none xs ys s = rw call_each-append
  seen-seen a (some z) xs ys s = rw call_each-append

  -- A delivery calls the callback for each valid message in order, and leaves the status that the
  -- last terminating event sets.
  pub receive-seen :
      (eproto : ℕ) (es : List (Event Msg)) (s : Socket Msg Client)
      → receive eproto es s ≡ seen (final_status eproto es) (messages es) s
  unfolding receive final_status messages call_each
  receive-seen eproto [] s = refl
  receive-seen eproto (e ∷ es) s =
      receive-seen eproto es (handle eproto e s).0
      ∙ ap (seen (final_status eproto es) (messages es)) (handle-seen eproto e s)
      ∙ seen-seen (outcome eproto e) (final_status eproto es) (messages (e ∷ [])) (messages es) s
      ∙ ap (λ ms. seen (or_else (final_status eproto es) (outcome eproto e)) ms s)
          (sym (messages-append (e ∷ []) es))
