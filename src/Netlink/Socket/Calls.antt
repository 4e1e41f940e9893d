-- ===== src/Netlink/Socket/Calls.antt =====
-- The member functions of Socket, GenericSocket and CacheManager that make one call of libnl and check
-- its result: src/netlink.cpp and src/generic.cpp. The functions of libnl on their state `S` are
-- parameters.
pub mod Answers
use Prim.Native.String.{String}
use nlcpp.Common.{Bool, true, false}
use nlcpp.Common.Int.{ℤ, pos, negsuc}
use nlcpp.Common.Run.{M, ok, ◌>>=◌, ◌>>◌, pure, when}
use nlcpp.Exception.{Errno, throw_code}

-- A function of libnl on the state `S`: its result code and the new state.
abbrev pub Call : Type 0 → Type 0
Call S = S → ℤ × S

-- `nl_cb_set` of addMembership is `accept_any_sequence`.
pub record NlCalls (S : Type 0) : Type 0 where
  pub accept_any_sequence : S → S
  pub nl_socket_add_membership : ℤ → Call S
  pub nl_socket_drop_membership : ℤ → Call S
  pub nl_recvmsgs : Call S
  pub genl_ctrl_resolve : String → Call S
  pub genl_ctrl_resolve_grp : String → String → Call S
  pub nl_cache_mngr_alloc : ℤ → Call S
  pub nl_cache_mngr_poll : ℤ → Call S
  pub nl_cache_mngr_data_ready : Call S

abbrev pub is_negative : ℤ → Bool
is_negative (pos n) = false
is_negative (negsuc n) = true

module _ {S : Type 0} (e : Errno) where
  -- Call, and throw what the code says.
  unfoldable pub checked : String → Call S → M S (Unit {0})
  unfolding throw_code
  checked prefix f s = throw_code e prefix (f s).0 (f s).1

  -- Call, and return the result unless it is negative.
  unfoldable pub counted : String → Call S → M S ℤ
  unfolding throw_code
  counted prefix f s =
      (when (is_negative (f s).0) (throw_code e prefix (f s).0) >> pure (f s).0) (f s).1

  module _ (nl : NlCalls S) where
    -- Socket::addMembership
    unfoldable pub add_membership : ℤ → M S (Unit {0})
    unfolding checked
    add_membership group s =
        checked "failed to add membership" (nl.nl_socket_add_membership group)
          (nl.accept_any_sequence s)

    -- Socket::dropMembership
    unfoldable pub drop_membership : ℤ → M S (Unit {0})
    unfolding checked
    drop_membership group s =
        checked "failed to add membership" (nl.nl_socket_drop_membership group) s

    -- Socket::receiveMessages
    unfoldable pub receive_messages : M S ℤ
    unfolding counted
    receive_messages s = counted "failed to receive message" nl.nl_recvmsgs s

    -- GenericSocket::resolve
    unfoldable pub resolve : String → M S ℤ
    unfolding counted
    resolve name s = counted "genl_ctrl_resolve failed" (nl.genl_ctrl_resolve name) s

    -- GenericSocket::resolveGroup
    unfoldable pub resolve_group : String → String → M S ℤ
    unfolding counted
    resolve_group family group s =
        counted "genl_ctrl_resolve_grp failed" (nl.genl_ctrl_resolve_grp family group) s

    -- CacheManager::CacheManager
    unfoldable pub cache_manager_make : ℤ → M S (Unit {0})
    unfolding checked
    cache_manager_make protocol s =
        checked "nl_cache_mngr_alloc failed" (nl.nl_cache_mngr_alloc protocol) s

    -- CacheManager::poll
    unfoldable pub poll : ℤ → M S ℤ
    unfolding counted
    poll timeout s = counted "nl_cache_mngr_poll failed" (nl.nl_cache_mngr_poll timeout) s

    -- CacheManager::dataReady
    unfoldable pub data_ready : M S ℤ
    unfolding counted
    data_ready s = counted "nl_cache_mngr_data_ready failed" nl.nl_cache_mngr_data_ready s
