-- ===== src/Netlink/Socket/Calls/Answers.antt =====
-- How the calls that return a count or an identifier report failure.
use Prim.Native.String.{String}
use nlcpp.Common.{◌≡◌, ◌≢◌, refl, arith}
use nlcpp.Common.Int.{ℤ, pos, negsuc, abs}
use nlcpp.Common.Run.{M, Ends, returns}
use nlcpp.Exception.{Errno, IsErrno, int_min}
use nlcpp.Exception.Codes.{Tells, throw_code-then}
use nlcpp.Netlink.Socket.Calls.{
  Call, NlCalls, counted, receive_messages, resolve, resolve_group, poll, data_ready,
}

pub data CountedCall : Type 0 where
  receive_of data_ready_of : CountedCall
  resolve_of : (name : String) → CountedCall
  resolve_group_of : (family group : String) → CountedCall
  poll_of : (timeout : ℤ) → CountedCall

-- The text of the exception.
unfoldable pub text_of : CountedCall → String
text_of receive_of = "failed to receive message"
text_of (resolve_of name) = "genl_ctrl_resolve failed"
text_of (resolve_group_of family group) = "genl_ctrl_resolve_grp failed"
text_of (poll_of timeout) = "nl_cache_mngr_poll failed"
text_of data_ready_of = "nl_cache_mngr_data_ready failed"

module _ {S : Type 0} (nl : NlCalls S) where
  unfoldable pub result_of : CountedCall → Call S
  result_of receive_of = nl.nl_recvmsgs
  result_of (resolve_of name) = nl.genl_ctrl_resolve name
  result_of (resolve_group_of family group) = nl.genl_ctrl_resolve_grp family group
  result_of (poll_of timeout) = nl.nl_cache_mngr_poll timeout
  result_of data_ready_of = nl.nl_cache_mngr_data_ready

  unfoldable pub run_call : Errno → CountedCall → M S ℤ
  run_call e receive_of = receive_messages e nl
  run_call e (resolve_of name) = resolve e nl name
  run_call e (resolve_group_of family group) = resolve_group e nl family group
  run_call e (poll_of timeout) = poll e nl timeout
  run_call e data_ready_of = data_ready e nl

-- A result that is not negative.
abbrev pub IsCount : ℤ → Type 0
IsCount (pos n) = Unit {0}
IsCount (negsuc n) = ⊥

module _ {S : Type 0} (e : Errno) (nl : NlCalls S) where
  run_call-counted :
      (c : CountedCall) (s : S) → run_call nl e c s ≡ counted e (text_of c) (result_of nl c) s
  unfolding run_call text_of result_of receive_messages resolve resolve_group poll data_ready
  run_call-counted receive_of s = refl
  run_call-counted (resolve_of name) s = refl
  run_call-counted (resolve_group_of family group) s = refl
  run_call-counted (poll_of timeout) s = refl
  run_call-counted data_ready_of s = refl

  pub check-IsCount :
      (he : IsErrno e) (name : String) (f : Call S) (s : S) (z : ℤ) (t : S)
      → f s ≡ (z, t)
      → z ≢ int_min
      → Ends
          (λ v u. (u ≡ t) × (v ≡ z) × IsCount z)
          (λ x u. (u ≡ t) × (¬ IsCount z) × Tells e name (abs z) x)
          (counted e name f s)
  unfolding counted
  check-IsCount he name f s (pos n) t h k = rw h (returns (refl, refl, tt))
  check-IsCount he name f s (negsuc n) t h k = rw h (
      throw_code-then e he name t _ (negsuc n) k (λ z. absurd (ground arith))
        (λ x z tells. (refl, (λ c. c), tells)))

  -- A call that returns a count or an identifier makes one call of libnl, returns its result exactly
  -- where that is not negative, and else throws what tells the error, under its own text. The result
  -- is taken to be above the least `int`.
  run_call-IsCount :
      (he : IsErrno e) (c : CountedCall) (s : S)
      → (result_of nl c s).0 ≢ int_min
      → Ends
          (λ v t.
            (t ≡ (result_of nl c s).1) × (v ≡ (result_of nl c s).0) × IsCount (result_of nl c s).0)
          (λ x t.
            (t ≡ (result_of nl c s).1)
            × (¬ IsCount (result_of nl c s).0)
            × Tells e (text_of c) (abs (result_of nl c s).0) x)
          (run_call nl e c s)
  run_call-IsCount he c s h = rw (run_call-counted c s) (
      check-IsCount he (text_of c) (result_of nl c) s (result_of nl c s).0 (result_of nl c s).1 refl
        h)
