-- ===== src/Route/Watch.antt =====
-- RouteCacheManager and RouteAddressCache of src/route.cpp: who is told of the changes of a cache. The
-- vectors of callbacks stand on a heap, known by their addresses; libnl keeps the address that
-- `nl_cache_mngr_add` was given, and a RouteAddressCache owns the vector. A callback changes the state
-- of its client; it does not call `watch`. The reference counts of the `nl_cache` and of the
-- temporary RouteAddress are those of their classes.
pub mod Specification
pub mod Refinement
pub mod Lifecycle
use Prim.Native.String.{String}
use nlcpp.Common.{
  ℕ, Option, none, some, List, [], ◌∷◌, ◌++◌, ◌==◌, if◌then◌else◌, length, get_elem?, set,
}
use nlcpp.Common.Int.{ℤ, pos, abs}
use nlcpp.Common.Run.{Run, M, ok, throws, fault, attempt, undefined, throw, ◌>>=◌, ◌>>◌, pure}
use nlcpp.Exception.{Errno, throw_code}
use nlcpp.Objects.Defs.{Ptr}

-- Action of include/nlcpp/netlink.h: an `int`, with these constants among others.
abbrev pub Action : Type 0
Action = ℤ

abbrev pub action_new : Action
action_new = pos 1

abbrev pub action_delete : Action
action_delete = pos 2

-- `function<void(const RouteAddress &, Action)>`, on the address at a pointer.
abbrev pub Watcher : Type 0 → Type 0
Watcher Client = ℕ → Action → Client → Client

-- `vectors` is the heap, with `none` for what is freed. `registered` is what libnl has kept, in order.
-- `caches` are the objects of RouteAddressCache with their member `callbacks`, and `none` for one whose
-- lifetime has ended.
pub record Watching (Client : Type 0) : Type 0 where
  pub vectors : List (Option (List (Watcher Client)))
  pub registered : List ℕ
  pub caches : List (Option Ptr)
  pub client : Client

module _ {Client : Type 0} where
  -- `for (const auto & cb : *callbacks) cb(addr, Action(action));`
  unfoldable pub call_watchers : List (Watcher Client) → ℕ → Action → Client → Client
  call_watchers [] obj action c = c
  call_watchers (cb ∷ cbs) obj action c = call_watchers cbs obj action (cb obj action c)

  -- What is at an address of the heap.
  abbrev pub vector_at : Watching Client → ℕ → Option (List (Watcher Client))
  vector_at w p = elim (get_elem? w.vectors p) [ none ↦ none | some o ↦ o ]

  -- The lambda of addressCache, called with the address that it was registered with.
  unfoldable pub notify : ℕ → ℕ → Action → M (Watching Client) (Unit {0})
  unfolding call_watchers
  notify callbacks obj action w = elim (vector_at w callbacks) [
    | none ↦ fault
    | some cbs ↦ ok tt (record w { client = call_watchers cbs obj action w.client })
  ]

  -- The callbacks of all that is registered, in order.
  unfoldable pub notify_all : List ℕ → ℕ → Action → M (Watching Client) (Unit {0})
  unfolding notify
  notify_all [] obj action = pure tt
  notify_all (p ∷ ps) obj action = do notify p obj action; notify_all ps obj action

  -- libnl finds that an address has changed.
  unfoldable pub changed : ℕ → Action → M (Watching Client) (Unit {0})
  unfolding notify_all
  changed obj action w = notify_all w.registered obj action w

  -- make_unique<vector<...>>()
  unfoldable pub new_vector : M (Watching Client) ℕ
  new_vector w = ok (length w.vectors) (record w { vectors = w.vectors ++ (some [] ∷ []) })

  -- ~unique_ptr
  unfoldable pub delete_vector : Ptr → M (Watching Client) (Unit {0})
  delete_vector none w = ok tt w
  delete_vector (some p) w = elim (vector_at w p) [
    | none ↦ fault
    | some cbs ↦ ok tt (record w { vectors = set w.vectors p none })
  ]

  -- nl_cache_mngr_add(mngr, "route/addr", cb, callbacks, &cache) answers `err`, and keeps the address if
  -- that is success.
  unfoldable pub manager_add : (err : ℤ) → ℕ → M (Watching Client) (Unit {0})
  manager_add err callbacks w =
      ok tt (if abs err == 0 then record w { registered = w.registered ++ (callbacks ∷ []) } else w)

  unfoldable pub construct_cache : Ptr → M (Watching Client) ℕ
  construct_cache p w = ok (length w.caches) (record w { caches = w.caches ++ (some p ∷ []) })

  -- RouteCacheManager::addressCache; the local `callbacks` is destroyed where `throwCode` throws.
  unfoldable pub address_cache : Errno → (err : ℤ) → M (Watching Client) ℕ
  unfolding new_vector manager_add construct_cache delete_vector throw_code
  address_cache e err = do
    callbacks ← new_vector
    manager_add err callbacks
    λ w.
        attempt (throw_code e "nl_cache_mngr_add failed" err w)
          (λ _. construct_cache (some callbacks)) (λ x. delete_vector (some callbacks) >> throw x)

  -- The `callbacks` of a live RouteAddressCache.
  unfoldable pub callbacks_of : ℕ → M (Watching Client) Ptr
  callbacks_of this w = elim (get_elem? w.caches this) [
    | none ↦ fault
    | some o ↦ elim o [ none ↦ fault | some p ↦ ok p w ]
  ]

  unfoldable pub push_back : Ptr → Watcher Client → M (Watching Client) (Unit {0})
  push_back none cb w = fault
  push_back (some p) cb w = elim (vector_at w p) [
    | none ↦ fault
    | some cbs ↦ ok tt (record w { vectors = set w.vectors p (some (cbs ++ (cb ∷ []))) })
  ]

  -- RouteAddressCache::watch
  unfoldable pub watch : ℕ → Watcher Client → M (Watching Client) (Unit {0})
  unfolding callbacks_of push_back
  watch this callback = do callbacks ← callbacks_of this; push_back callbacks callback

  -- The move constructor that the compiler makes.
  unfoldable pub address_cache_move : ℕ → M (Watching Client) ℕ
  unfolding callbacks_of construct_cache
  address_cache_move other = do
    callbacks ← callbacks_of other
    this ← construct_cache callbacks
    λ w. ok this (record w { caches = set w.caches other (some none) })

  -- The destructor that the compiler makes.
  unfoldable pub address_cache_destroy : ℕ → M (Watching Client) (Unit {0})
  unfolding callbacks_of delete_vector
  address_cache_destroy this = do
    callbacks ← callbacks_of this
    delete_vector callbacks
    λ w. ok tt (record w { caches = set w.caches this none })
