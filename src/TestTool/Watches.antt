-- ===== src/TestTool/Watches.antt =====
-- The command address-watch of src/test-tool.cpp, and how `main` hands the events of its file
-- descriptors to the managers that it keeps. What libnl and `poll` answer are arguments.
pub mod Invariant
pub mod Events
pub mod Starting
use nlcpp.Common.{
  ℕ, suc, Bool, true, false, Option, none, some, List, [], ◌∷◌, ◌++◌, get_elem?, set, if◌then◌else◌,
}
use nlcpp.Common.Int.{ℤ, int_eq}
use nlcpp.Common.Run.{Run, M, ok, throws, fault, pure, when, ◌>>=◌, ◌>>◌}
use nlcpp.Exception.{Errno, throw_code}
use nlcpp.Netlink.Socket.Calls.{is_negative}
use nlcpp.Route.Watch.{
  Action, action_new, action_delete, Watcher, Watching, changed, address_cache, watch,
}
use nlcpp.TestTool.Line.{Word}
use nlcpp.TestTool.Number.{codes}

-- The variables `pollFds`, `managers` and `caches`, and the lines that have been printed. A manager is
-- what it tells its watchers; its cache is known by its place there.
pub record Loop : Type 0 where
  pub printed : List Word
  pub poll_fds : List ℤ
  pub managers : List (Watching (List Word))
  pub caches : List ℕ

-- What the data of one manager comes to: the changes that libnl finds, and its result.
pub record Delivery : Type 0 where
  pub changes : List (ℕ × Action)
  pub result : ℤ

-- `case Action::New: ... case Action::Delete: ... default: ...`
unfoldable pub action_word : Action → Word
action_word action =
    if int_eq action action_new
    then codes "new"
    else if int_eq action action_delete
    then codes "del"
    else codes "unknown"

module _ (e : Errno) (local_text : ℕ → Word) where
  -- The line for a change; `local_text` is `showAddress(addr.local())`.
  unfoldable pub event_line : ℕ → Action → Word
  unfolding action_word
  event_line obj action =
      codes "address-watch-event " ++ (action_word action ++ (codes " " ++ local_text obj))

  -- The callback of addressWatch.
  unfoldable pub watch_event : Watcher (List Word)
  unfolding event_line
  watch_event obj action printed = printed ++ (event_line obj action ∷ [])

  abbrev pub new_watching : List Word → Watching (List Word)
  new_watching printed = record { vectors = []; registered = []; caches = []; client = printed }

  -- `mngr->addressCache()`, and `watch` on the cache
  unfoldable pub watched_cache : (add_err : ℤ) → M (Watching (List Word)) ℕ
  unfolding address_cache watch
  watched_cache add_err = do cache ← address_cache e add_err; watch cache watch_event; pure cache

  -- The three calls of `emplace_back`.
  abbrev pub keep_manager : (fd : ℤ) → Loop → Run (Watching (List Word)) ℕ → Run Loop (Unit {0})
  keep_manager fd l (ok cache w) = ok tt (record {
    printed = l.printed ++ (codes "address-watch-done" ∷ []);
    poll_fds = l.poll_fds ++ (fd ∷ []);
    managers = l.managers ++ (w ∷ []);
    caches = l.caches ++ (cache ∷ []);
  })
  keep_manager fd l (throws x w) = throws x l
  keep_manager fd l fault = fault

  -- addressWatch; `alloc_err` and `add_err` are the results of nl_cache_mngr_alloc and
  -- nl_cache_mngr_add, and `fd` that of nl_cache_mngr_get_fd.
  unfoldable pub address_watch : (alloc_err add_err fd : ℤ) → M Loop (Unit {0})
  unfolding throw_code watched_cache
  address_watch alloc_err add_err fd = do
    throw_code e "nl_cache_mngr_alloc failed" alloc_err
    λ l. keep_manager fd l (watched_cache add_err (new_watching l.printed))

  unfoldable pub deliver : List (ℕ × Action) → M (Watching (List Word)) (Unit {0})
  unfolding changed
  deliver [] = pure tt
  deliver ((obj, action) ∷ changes) = do changed obj action; deliver changes

  -- CacheManager::dataReady
  unfoldable pub data_delivered : Delivery → M (Watching (List Word)) (Unit {0})
  unfolding deliver throw_code
  data_delivered d = do
    deliver d.changes
    when (is_negative d.result) (throw_code e "nl_cache_mngr_data_ready failed" d.result)

  abbrev pub put_manager : ℕ → Loop → Run (Watching (List Word)) (Unit {0}) → Run Loop (Unit {0})
  put_manager i l (ok a w) = ok tt (record l { printed = w.client; managers = set l.managers i w })
  put_manager i l (throws x w) =
      throws x (record l { printed = w.client; managers = set l.managers i w })
  put_manager i l fault = fault

  -- `managers[i]->dataReady()`; a place that is not there is undefined.
  -- `data_of` says what the data of the manager at each place comes to.
  unfoldable pub manager_ready : (data_of : ℕ → Delivery) → ℕ → M Loop (Unit {0})
  unfolding data_delivered
  manager_ready data_of i l = elim (get_elem? l.managers i) [
    | none ↦ fault
    | some w ↦ put_manager i l (data_delivered (data_of i) (record w { client = l.printed }))
  ]

  -- The loop over `pollFds` from 1 on: `revents` says for each whether its `revents` is not 0, and `i` is
  -- the place of the first one's manager.
  unfoldable pub managers_ready :
      (data_of : ℕ → Delivery) → (revents : List Bool) → (i : ℕ) → M Loop (Unit {0})
  unfolding manager_ready
  managers_ready data_of [] i = pure tt
  managers_ready data_of (false ∷ revents) i = managers_ready data_of revents (suc i)
  managers_ready data_of (true ∷ revents) i = do
    manager_ready data_of i
    managers_ready data_of revents (suc i)
