-- ===== src/Netlink/Cache.antt =====
-- Cache of src/netlink.cpp: the life of its objects, each with a counted reference to one
-- `nl_cache`.
pub mod Lifetime
use Prim.Native.String.{String}
use nlcpp.Common.{ℕ, ◌==◌, if◌then◌else◌, none}
use nlcpp.Common.Run.{M, runtime_error, ◌>>=◌, ◌>>◌, pure, throw}
use nlcpp.Objects.Defs.{
  Ptr, Libnl, World, is_null, member, set_member, construct, end_lifetime, call_clone, call_get,
  call_put,
}

module _ {l : Libnl} where
  -- Cache(nl_cache *, CreateCopyFromPointer)
  unfoldable pub cache_clone : Ptr → M (World l) ℕ
  unfolding call_clone construct
  cache_clone ptr = do
    cache ← call_clone ptr
    if is_null cache then throw (runtime_error "Failed to copy cache") else construct cache

  -- Cache(nl_cache *, TakeOwnershipOfPointer)
  unfoldable pub cache_take : Ptr → M (World l) ℕ
  unfolding construct
  cache_take ptr = construct ptr

  -- Cache(nl_cache *, ShareOwnershipOfPointer)
  unfoldable pub cache_share : Ptr → M (World l) ℕ
  unfolding call_get construct
  cache_share ptr = do this ← construct ptr; call_get ptr; pure this

  -- Cache(nl_cache *), deprecated
  unfoldable pub cache_from : Ptr → M (World l) ℕ
  unfolding cache_share
  cache_from ptr = cache_share ptr

  -- Cache(const Cache &)
  unfoldable pub cache_copy : ℕ → M (World l) ℕ
  unfolding member call_get construct
  cache_copy other = do cache ← member other; this ← construct cache; call_get cache; pure this

  -- operator=(const Cache &)
  unfoldable pub cache_copy_assign : ℕ → ℕ → M (World l) ℕ
  unfolding member call_put call_get set_member
  cache_copy_assign this other = if this == other then pure this else do
    old ← member this
    call_put old
    cache ← member other
    set_member this cache
    call_get cache
    pure this

  -- Cache(Cache &&)
  unfoldable pub cache_move : ℕ → M (World l) ℕ
  unfolding member construct set_member
  cache_move other = do
    cache ← member other
    this ← construct cache
    set_member other none
    pure this

  -- operator=(Cache &&)
  unfoldable pub cache_move_assign : ℕ → ℕ → M (World l) ℕ
  unfolding member call_put set_member
  cache_move_assign this other = if this == other then pure this else do
    old ← member this
    call_put old
    cache ← member other
    set_member this cache
    set_member other none
    pure this

  -- ~Cache()
  unfoldable pub cache_destroy : ℕ → M (World l) (Unit {0})
  unfolding member call_put end_lifetime
  cache_destroy this = do cache ← member this; call_put cache; end_lifetime this
