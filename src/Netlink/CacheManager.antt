-- ===== src/Netlink/CacheManager.antt =====
-- The life of a CacheManager of src/netlink.cpp, which frees its `nl_cache_mngr` when it is destroyed.
-- The class declares no copy operations, so that the compiler writes them: they copy the pointer, and a
-- move is a copy too. The functions of libnl are parameters; nl_cache_mngr_free is `put`.
pub mod Lifetime
pub mod Copies
use nlcpp.Common.{ℕ, Option, none, some, ◌==◌, if◌then◌else◌}
use nlcpp.Common.Int.{ℤ}
use nlcpp.Common.Run.{M, ok, fault, undefined, pure, ◌>>=◌, ◌>>◌}
use nlcpp.Exception.{Errno, throw_code}
use nlcpp.Objects.Defs.{Ptr, Libnl, World, member, set_member, construct, end_lifetime, call_put}

-- `nl_cache_mngr_alloc` has a result code, and stores the pointer of the manager.
pub record ManagerCalls (l : Libnl) : Type 0 where
  pub nl_cache_mngr_alloc : (protocol : ℤ) → l.Store → ℤ × (Ptr × l.Store)
  pub nl_cache_mngr_get_fd : (mngr : ℕ) → l.Store → ℤ

module _ {l : Libnl} where
  -- CacheManager(int protocol)
  unfoldable pub manager_make : Errno → ManagerCalls l → (protocol : ℤ) → M (World l) ℕ
  unfolding throw_code construct
  manager_make e nl protocol w =
      let (err, (mngr, s)) = nl.nl_cache_mngr_alloc protocol w.store in
      (throw_code e "nl_cache_mngr_alloc failed" err >> construct mngr) (record w { store = s })

  -- ~CacheManager()
  unfoldable pub manager_destroy : ℕ → M (World l) (Unit {0})
  unfolding member call_put end_lifetime
  manager_destroy this = do mngr ← member this; call_put mngr; end_lifetime this

  -- To read through a null pointer, or one to a manager that was freed, is undefined.
  unfoldable pub fd_of : ManagerCalls l → Ptr → M (World l) ℤ
  fd_of nl none = undefined
  fd_of nl (some p) =
      λ w. if l.refs w.store p == 0 then fault else ok (nl.nl_cache_mngr_get_fd p w.store) w

  -- getFd
  unfoldable pub manager_fd : ManagerCalls l → ℕ → M (World l) ℤ
  unfolding member fd_of
  manager_fd nl this = do mngr ← member this; fd_of nl mngr

  -- CacheManager(const CacheManager &), by the compiler
  unfoldable pub manager_copy : ℕ → M (World l) ℕ
  unfolding member construct
  manager_copy other = do mngr ← member other; construct mngr

  -- operator=(const CacheManager &), by the compiler
  unfoldable pub manager_copy_assign : ℕ → ℕ → M (World l) ℕ
  unfolding member set_member
  manager_copy_assign this other = do mngr ← member other; set_member this mngr; pure this
