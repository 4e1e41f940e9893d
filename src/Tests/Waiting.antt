-- ===== src/Tests/Waiting.antt =====
-- The wait for an answer, at a few deliveries.
use nlcpp.Generic.Messages.{send_generic_sync_with, on_valid_message, generic-delivered}
use nlcpp.Common.{ℕ, ◌+◌, ◌*◌, ◌≡◌, refl, none, some, List, [], ◌∷◌, ◌++◌}
use nlcpp.Common.Int.{pos, negsuc}
use nlcpp.Netlink.Socket.{
  Event, valid, error, Callback, Socket, send_message_sync, send_message_sync_with, call_valid,
  receive,
}
use nlcpp.Netlink.Socket.Delivery.{messages, outcome, or_else, final_status, call_each}
use nlcpp.Netlink.Socket.Sync.{concat, send_message_sync-waiting, send_message_sync_with-answer}

-- The client collects the messages.
abbrev collect : Callback ℕ (List ℕ)
collect m ms = ms ++ (m ∷ [])

abbrev socket : Socket ℕ (List ℕ)
socket = record { call_status = pos 0; valid_callback = some collect; client = [] }

abbrev first : List (Event ℕ)
first = valid 1 ∷ valid 2 ∷ []

abbrev second : List (Event ℕ)
second = valid 3 ∷ error (negsuc 18) ∷ []

collected : call_each (some collect) (messages (concat (first ∷ []) ++ second)) [] ≡ 1 ∷ 2 ∷ 3 ∷ []
unfolding call_each messages concat call_valid
collected = refl

-- Deliveries of nothing, as when `nl_recvmsgs` fails.
send_message_sync-waiting_example : send_message_sync 71 ([] ∷ first ∷ [] ∷ []) socket ≡ none
unfolding final_status or_else outcome
send_message_sync-waiting_example =
    send_message_sync-waiting 71 ([] ∷ first ∷ [] ∷ []) socket (refl, (refl, (refl, tt)))

send_message_sync_with-answer_example :
    send_message_sync_with 71 none ((first ∷ []) ++ (second ∷ [])) socket
    ≡ some (record socket {
      call_status = negsuc 18;
      client = call_each none (messages (concat (first ∷ []) ++ second)) [];
    })
unfolding final_status or_else outcome
send_message_sync_with-answer_example =
    send_message_sync_with-answer 71 none (first ∷ []) second [] socket (negsuc 18) (refl, tt) refl

-- A registered callback that collects the messages that come outside of a call, and the one of the call.
abbrev mark : Callback ℕ (List ℕ)
mark m ms = ms ++ ((100 + m) ∷ [])

generic-delivered_example :
    (t : Socket ℕ (List ℕ)) × (send_generic_sync_with
        (λ m. 10 * m)
        71
        collect
        ((first ∷ []) ++ (second ∷ []))
        (on_valid_message (λ m. 10 * m) mark socket)
      ≡ some t)
    × (t.client ≡ 10 ∷ 20 ∷ 30 ∷ [])
    × ((receive 71 (valid 4 ∷ []) t).client ≡ call_each (some mark) (40 ∷ []) t.client)
unfolding final_status or_else outcome call_each messages concat call_valid
generic-delivered_example =
    generic-delivered (λ m. 10 * m) 71 collect mark (first ∷ []) second (valid 4 ∷ []) [] socket
      (negsuc 18) (refl, tt) refl
