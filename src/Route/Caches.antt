-- ===== src/Route/Caches.antt =====
-- RouteCacheManager of src/route.cpp: its constructor, and the requests for caches that nobody watches.
-- The functions of libnl on their state `S` are parameters; a cache is known by its kind.
use Prim.Native.String.{String}
use nlcpp.Common.Int.{ℤ}
use nlcpp.Common.Run.{M, ok, ◌>>=◌, ◌>>◌}
use nlcpp.Exception.{Errno, throw_code}
use nlcpp.Netlink.Socket.Calls.{NlCalls, cache_manager_make}

-- What the caches of a manager, and the references to a cache, need of libnl.
pub record CacheCalls (S : Type 0) : Type 0 where
  pub nl_cache_mngr_add : String → S → ℤ × S
  pub nl_cache_get : String → S → S
  pub nl_cache_put : String → S → S
  pub nl_cache_mngr_free : S → S

module _ {S : Type 0} (e : Errno) where
  -- RouteCacheManager()
  unfoldable pub new_manager : NlCalls S → (netlink_route : ℤ) → M S (Unit {0})
  unfolding cache_manager_make
  new_manager nl netlink_route = cache_manager_make e nl netlink_route

  module _ (nl : CacheCalls S) where
    -- The call that all three functions make.
    abbrev add_cache : String → M S ℤ
    add_cache kind s = ok (nl.nl_cache_mngr_add kind s).0 (nl.nl_cache_mngr_add kind s).1

    -- Cache(nl_cache *, ShareOwnershipOfPointer)
    abbrev pub share_cache : String → M S (Unit {0})
    share_cache kind s = ok tt (nl.nl_cache_get kind s)

    -- The destructors of a cache and of the manager
    unfoldable pub drop_cache : String → M S (Unit {0})
    drop_cache kind s = ok tt (nl.nl_cache_put kind s)

    unfoldable pub drop_manager : M S (Unit {0})
    drop_manager s = ok tt (nl.nl_cache_mngr_free s)

    -- addressCache, for a cache that nobody watches
    unfoldable pub unwatched_address_cache : M S (Unit {0})
    unfolding throw_code
    unwatched_address_cache = do
      err ← add_cache "route/addr"
      throw_code e "nl_cache_mngr_add failed" err
      share_cache "route/addr"

    -- linkCache
    unfoldable pub link_cache : M S (Unit {0})
    unfolding throw_code
    link_cache = do
      err ← add_cache "route/link"
      throw_code e "nl_cache_mngr_add failed" err
      share_cache "route/link"

    -- routeCache
    unfoldable pub route_cache : M S (Unit {0})
    unfolding throw_code
    route_cache = do
      err ← add_cache "route/route"
      throw_code e "nl_cache_mngr_add failed" err
      share_cache "route/route"
