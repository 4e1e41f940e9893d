-- ===== src/Netlink/Socket/Sync.antt =====
-- When `sendMessageSync` returns, and what it has done by then.
use mathlib.Core.List.{append_assoc}
use nlcpp.Common.{
  ℕ, suc, zero, ◌≡◌, refl, sym, ap, ◌∙◌, true, false, Option, none, some, List, [], ◌∷◌, ◌++◌,
}
use nlcpp.Common.Int.{ℤ, pos, negsuc, neg, is_positive}
use nlcpp.Netlink.Socket.{
  Event, valid, finish, ack, error, Callback, Socket, receive, wait, send_message_sync,
  send_message_sync_with, restore,
}
use nlcpp.Netlink.Socket.Delivery.{
  messages, outcome, or_else, final_status, call_each, seen, receive-seen, messages-append,
  seen-seen,
}

-- No batch has a terminating event.
abbrev pub AllWaiting : {Msg : Type 0} → ℕ → List (List (Event Msg)) → Type 0
AllWaiting eproto [] = Unit {0}
AllWaiting eproto (b ∷ bs) = (final_status eproto b ≡ none) × AllWaiting eproto bs

unfoldable pub concat : {Msg : Type 0} → List (List (Event Msg)) → List (Event Msg)
concat [] = []
concat (b ∷ bs) = b ++ concat bs

-- A status, if there is one, ends the loop.
abbrev pub IsFinal : Option ℤ → Type 0
IsFinal none = Unit {0}
IsFinal (some z) = is_positive z ≡ false

neg-not_positive : (n : ℕ) → is_positive (neg n) ≡ false
neg-not_positive zero = refl
neg-not_positive (suc n) = refl

or_else-IsFinal : (a b : Option ℤ) → IsFinal a → IsFinal b → IsFinal (or_else a b)
unfolding or_else
or_else-IsFinal none b h k = k
or_else-IsFinal (some z) b h k = h

module _ {Msg : Type 0} (eproto : ℕ) where
  outcome-IsFinal : (e : Event Msg) → IsFinal (outcome eproto e)
  unfolding outcome
  outcome-IsFinal (valid m) = tt
  outcome-IsFinal finish = refl
  outcome-IsFinal ack = refl
  outcome-IsFinal (error (pos zero)) = refl
  outcome-IsFinal (error (pos (suc n))) = neg-not_positive eproto
  outcome-IsFinal (error (negsuc n)) = refl

  final_status-IsFinal : (es : List (Event Msg)) → IsFinal (final_status eproto es)
  unfolding final_status
  final_status-IsFinal [] = tt
  final_status-IsFinal (e ∷ es) =
      or_else-IsFinal (final_status eproto es) (outcome eproto e) (final_status-IsFinal es)
        (outcome-IsFinal e)

module _ {Msg Client : Type 0} (eproto : ℕ) where
  -- A delivery with no terminating event keeps the loop waiting.
  receive-waiting :
      (b : List (Event Msg)) (s : Socket Msg Client)
      → final_status eproto b ≡ none
      → receive eproto b s ≡ seen none (messages b) s
  receive-waiting b s h = rw (receive-seen eproto b s, h)

  receive-answer :
      (b : List (Event Msg)) (s : Socket Msg Client) (z : ℤ)
      → final_status eproto b ≡ some z
      → receive eproto b s ≡ seen (some z) (messages b) s
  receive-answer b s z h = rw (receive-seen eproto b s, h)

  wait_done :
      (bs : List (List (Event Msg))) (s : Socket Msg Client)
      → is_positive s.call_status ≡ false
      → wait eproto bs s ≡ some s
  unfolding wait
  wait_done [] s h = rw h
  wait_done (b ∷ bs) s h = rw h

  wait_step :
      (b : List (Event Msg)) (bs : List (List (Event Msg))) (s : Socket Msg Client)
      → is_positive s.call_status ≡ true
      → wait eproto (b ∷ bs) s ≡ wait eproto bs (receive eproto b s)
  unfolding wait
  wait_step b bs s h = rw h

  wait-answer :
      (before : List (List (Event Msg))) (b : List (Event Msg)) (after : List (List (Event Msg)))
      (s : Socket Msg Client) (z : ℤ)
      → is_positive s.call_status ≡ true
      → AllWaiting eproto before
      → final_status eproto b ≡ some z
      → wait eproto (before ++ (b ∷ after)) s
        ≡ some (seen (some z) (messages (concat before ++ b)) s)
  unfolding concat or_else messages
  wait-answer [] b after s z p a h =
      wait_step b after s p
      ∙ ap (wait eproto after) (receive-answer b s z h)
      ∙ wait_done after (seen (some z) (messages b) s) (rw h at (final_status-IsFinal eproto b))
  wait-answer (c ∷ cs) b after s z p a h =
      wait_step c (cs ++ (b ∷ after)) s p
      ∙ ap (wait eproto (cs ++ (b ∷ after))) (receive-waiting c s a.0)
      ∙ wait-answer cs b after (seen none (messages c) s) z p a.1 h
      ∙ ap some (seen-seen none (some z) (messages c) (messages (concat cs ++ b)) s)
      ∙ ap (λ ms. some (seen (some z) ms s))
          (sym (rw append_assoc (messages-append c (concat cs ++ b))))

  wait-waiting :
      (bs : List (List (Event Msg))) (s : Socket Msg Client)
      → is_positive s.call_status ≡ true
      → AllWaiting eproto bs
      → wait eproto bs s ≡ none
  unfolding wait
  wait-waiting [] s p a = rw p
  wait-waiting (b ∷ bs) s p a =
      wait_step b bs s p
      ∙ ap (wait eproto bs) (receive-waiting b s a.0)
      ∙ wait-waiting bs (seen none (messages b) s) p a.1

  -- `sendMessageSync` returns after the first delivery that has a FINISH, an ACK or an ERROR. By then
  -- it has called the registered callback for every valid message up to the end of that delivery, in
  -- order, and `callStatus` is what the last such event of the delivery reports: never positive.
  send_message_sync-answer :
      (before : List (List (Event Msg))) (b : List (Event Msg)) (after : List (List (Event Msg)))
      (s : Socket Msg Client) (z : ℤ)
      → AllWaiting eproto before
      → final_status eproto b ≡ some z
      → (send_message_sync eproto (before ++ (b ∷ after)) s
          ≡ some (record s {
            call_status = z;
            client = call_each s.valid_callback (messages (concat before ++ b)) s.client;
          }))
        × (is_positive z ≡ false)
  unfolding send_message_sync
  send_message_sync-answer before b after s z a h = (
    wait-answer before b after (record s { call_status = pos 1 }) z refl a h,
    rw h at (final_status-IsFinal eproto b),
  )

  -- As long as no delivery has a FINISH, an ACK or an ERROR, whatever else it has or lacks, `sendMessageSync` does
  -- not return.
  pub send_message_sync-waiting :
      (batches : List (List (Event Msg))) (s : Socket Msg Client)
      → AllWaiting eproto batches
      → send_message_sync eproto batches s ≡ none
  unfolding send_message_sync
  send_message_sync-waiting batches s a =
      wait-waiting batches (record s { call_status = pos 1 }) refl a

  -- With a callback of its own, `sendMessageSync` hands that callback, and not the registered one,
  -- every valid message up to the end of the first delivery that has a FINISH, an ACK or an ERROR,
  -- and it leaves the registered callback as it was.
  pub send_message_sync_with-answer :
      (callback : Option (Callback Msg Client)) (before : List (List (Event Msg)))
      (b : List (Event Msg)) (after : List (List (Event Msg))) (s : Socket Msg Client) (z : ℤ)
      → AllWaiting eproto before
      → final_status eproto b ≡ some z
      → send_message_sync_with eproto callback (before ++ (b ∷ after)) s
        ≡ some (record s {
          call_status = z;
          client = call_each callback (messages (concat before ++ b)) s.client;
        })
  unfolding send_message_sync_with
  send_message_sync_with-answer callback before b after s z a h =
      ap (restore s.valid_callback)
        (send_message_sync-answer before b after (record s { valid_callback = callback }) z a h).0
