-- ===== src/Message.antt =====
-- Message of src/message.cpp: the life of its objects, each with a counted reference to one
-- `nl_msg`.
pub mod Lifetime
pub mod Put
use Prim.Native.String.{String}
use nlcpp.Common.{ℕ, ◌==◌, if◌then◌else◌, none}
use nlcpp.Common.Run.{M, runtime_error, ◌>>=◌, ◌>>◌, pure, throw}
use nlcpp.Objects.Defs.{
  Ptr, Libnl, World, is_null, member, set_member, construct, end_lifetime, call_alloc, call_get,
  call_put,
}

module _ {l : Libnl} where
  -- Message()
  unfoldable pub message_make : M (World l) ℕ
  unfolding call_alloc construct
  message_make = do
    msg ← call_alloc
    if is_null msg
        then throw (runtime_error "Failed to allocate netlink message")
        else construct msg

  -- Message(nl_msg *)
  unfoldable pub message_share : Ptr → M (World l) ℕ
  unfolding call_get construct
  message_share ptr = do this ← construct ptr; call_get ptr; pure this

  -- Message(Message &&)
  unfoldable pub message_move : ℕ → M (World l) ℕ
  unfolding member construct set_member
  message_move other = do msg ← member other; this ← construct msg; set_member other none; pure this

  -- operator=(Message &&)
  unfoldable pub message_move_assign : ℕ → ℕ → M (World l) ℕ
  unfolding member call_put set_member
  message_move_assign this other = if this == other then pure this else do
    old ← member this
    call_put old
    msg ← member other
    set_member this msg
    set_member other none
    pure this

  -- ~Message()
  unfoldable pub message_destroy : ℕ → M (World l) (Unit {0})
  unfolding member call_put end_lifetime
  message_destroy this = do msg ← member this; call_put msg; end_lifetime this
