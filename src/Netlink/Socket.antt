-- ===== src/Netlink/Socket.antt =====
-- Socket of src/netlink.cpp: the callbacks that libnl calls while it receives, and the loop that
-- waits for the answer to a message. What libnl delivers in each call of `nl_recvmsgs` is an
-- argument: one list of callback calls for each call.
pub mod Delivery
pub mod Sync
pub mod Calls
pub mod Open
use nlcpp.Common.{ℕ, Bool, true, false, Option, none, some, List, [], ◌∷◌, if◌then◌else◌}
use nlcpp.Common.Int.{ℤ, pos, neg, is_positive}

-- The callbacks that the constructor registers, with the part of their arguments that they read.
pub data Event (Msg : Type 0) : Type 0 where
  valid : Msg → Event Msg
  finish : Event Msg
  ack : Event Msg
  error : (err : ℤ) → Event Msg

pub data Verdict : Type 0 where
  nl_skip nl_stop : Verdict

-- A `function<void(Message)>`, as what it does to the state of the client that made it.
abbrev pub Callback : Type 0 → Type 0 → Type 0
Callback Msg Client = Msg → Client → Client

-- The members that the callbacks change, and the client's state. An empty callback is `none`.
pub record Socket (Msg Client : Type 0) : Type 0 where
  pub call_status : ℤ
  pub valid_callback : Option (Callback Msg Client)
  pub client : Client

module _ {Msg Client : Type 0} where
  -- Socket::finishCallbackWrapper
  unfoldable pub finish_callback : Socket Msg Client → Socket Msg Client × Verdict
  finish_callback s = (record s { call_status = pos 0 }, nl_skip)

  -- Socket::ackCallbackWrapper
  unfoldable pub ack_callback : Socket Msg Client → Socket Msg Client × Verdict
  ack_callback s = (record s { call_status = pos 0 }, nl_stop)

  -- `if (socket->validCallback) socket->validCallback(...)`
  unfoldable pub call_valid : Option (Callback Msg Client) → Msg → Client → Client
  call_valid none msg c = c
  call_valid (some f) msg c = f msg c

  -- Socket::validCallbackWrapper
  unfoldable pub valid_callback_wrapper : Msg → Socket Msg Client → Socket Msg Client × Verdict
  unfolding call_valid
  valid_callback_wrapper msg s =
      (record s { client = call_valid s.valid_callback msg s.client }, nl_skip)

  -- Socket::errorCallbackWrapper
  unfoldable pub error_callback : (eproto : ℕ) → ℤ → Socket Msg Client → Socket Msg Client × Verdict
  error_callback eproto err s =
      (record s { call_status = if is_positive err then neg eproto else err }, nl_stop)

  -- The callback that libnl calls for an event.
  unfoldable pub handle : (eproto : ℕ) → Event Msg → Socket Msg Client → Socket Msg Client × Verdict
  unfolding finish_callback ack_callback valid_callback_wrapper error_callback
  handle eproto (valid msg) s = valid_callback_wrapper msg s
  handle eproto finish s = finish_callback s
  handle eproto ack s = ack_callback s
  handle eproto (error err) s = error_callback eproto err s

  -- One call of `nl_recvmsgs` that delivers these events.
  unfoldable pub receive : (eproto : ℕ) → List (Event Msg) → Socket Msg Client → Socket Msg Client
  unfolding handle
  receive eproto [] s = s
  receive eproto (e ∷ es) s = receive eproto es (handle eproto e s).0

  -- `while (callStatus > 0) nl_recvmsgs(sock, callbacks);` against what the calls will deliver;
  -- `none` where the loop is still waiting after all of it.
  unfoldable pub wait :
      (eproto : ℕ) → List (List (Event Msg)) → Socket Msg Client → Option (Socket Msg Client)
  unfolding receive
  wait eproto [] s = if is_positive s.call_status then none else some s
  wait eproto (b ∷ bs) s =
      let rest = wait eproto bs (receive eproto b s) in
      if is_positive s.call_status then rest else some s

  -- Socket::sendMessageSync(const Message &); the result of `nl_send_auto` is not looked at.
  unfoldable pub send_message_sync :
      (eproto : ℕ) → List (List (Event Msg)) → Socket Msg Client → Option (Socket Msg Client)
  unfolding wait
  send_message_sync eproto batches s = wait eproto batches (record s { call_status = pos 1 })

  -- The second swap.
  unfoldable pub restore :
      Option (Callback Msg Client) → Option (Socket Msg Client) → Option (Socket Msg Client)
  restore old none = none
  restore old (some s) = some (record s { valid_callback = old })

  -- Socket::sendMessageSync(const Message &, function<void(Message)>), with its two swaps.
  unfoldable pub send_message_sync_with :
      (eproto : ℕ)
      → Option (Callback Msg Client)
      → List (List (Event Msg))
      → Socket Msg Client
      → Option (Socket Msg Client)
  unfolding send_message_sync restore
  send_message_sync_with eproto callback batches s =
      restore s.valid_callback
        (send_message_sync eproto batches (record s { valid_callback = callback }))
