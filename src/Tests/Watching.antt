-- ===== src/Tests/Watching.antt =====
-- The theorems on address caches and their callbacks, at a client that keeps the addresses it is told
-- of.
use nlcpp.Common.{ℕ, ◌+◌, ◌≡◌, ◌≢◌, refl, none, some, List, [], ◌∷◌, arith, get_elem?}
use nlcpp.Common.Int.{ℤ, pos, negsuc, abs}
use nlcpp.Common.Run.{Ends, fault, ◌>>◌}
use nlcpp.Exception.{int_min}
use nlcpp.Exception.Codes.{Tells}
use nlcpp.Route.Watch.{
  action_new, action_delete, Watcher, Watching, call_watchers, notify, notify_all, changed,
  construct_cache, address_cache, callbacks_of, push_back, watch, address_cache_move,
  address_cache_destroy,
}
use nlcpp.Route.Watch.Specification.{
  Op, watch_of, move_of, changed_of, watchers_after, calls_of, calls, apply_all, IsWatched, perform,
}
use nlcpp.Route.Watch.Refinement.{Runs, done, next, final_watchers, Runs-Refines}
use nlcpp.Route.Watch.Lifecycle.{address_cache-IsWatched, destroy-dangling}
use nlcpp.Tests.Errors.{errno, errno-IsErrno}

abbrev Client : Type 0
Client = List ℕ

-- A callback that notes the address.
abbrev note : Watcher Client
note obj action seen = obj ∷ seen

-- A callback that notes 100 more.
abbrev note_high : Watcher Client
note_high obj action seen = (100 + obj) ∷ seen

-- One cache, the object at place 0, with the vector at address 0.
abbrev pub one_cache : List (Watcher Client) → Watching Client
one_cache ws = record {
  vectors = some ws ∷ [];
  registered = 0 ∷ [];
  caches = some (some 0) ∷ [];
  client = [];
}

abbrev no_cache : Watching Client
no_cache = record { vectors = []; registered = []; caches = []; client = [] }

abbrev moved_cache : Client → Watching Client
moved_cache seen = record {
  vectors = some (note ∷ note_high ∷ []) ∷ [];
  registered = 0 ∷ [];
  caches = some none ∷ some (some 0) ∷ [];
  client = seen;
}

-- watch, move the cache, watch through the new object, and two changes.
abbrev ops : List (Op Client)
ops =
    watch_of 0 note
    ∷ move_of 0
    ∷ watch_of 1 note_high
    ∷ changed_of 7 action_new
    ∷ changed_of 8 action_delete
    ∷ []

history : Runs errno (one_cache []) ops (moved_cache (108 ∷ 8 ∷ 107 ∷ 7 ∷ []))
unfolding perform watch callbacks_of push_back address_cache_move construct_cache changed notify_all
    notify call_watchers
history =
    next (0, refl) refl
      (next (some 0, refl) refl (next (0, refl) refl (next tt refl (next tt refl done))))

only_cache :
    (ws : List (Watcher Client)) (i q : ℕ)
    → get_elem? (one_cache ws).caches i ≡ some (some (some q))
    → q ≡ 0
only_cache ws i q h = ground arith

one_cache-IsWatched : (ws : List (Watcher Client)) → IsWatched 0 (one_cache ws) ws
one_cache-IsWatched ws = record { told = refl; stored = refl; owned = only_cache ws }

Runs-Refines_example :
    IsWatched 0 (moved_cache (108 ∷ 8 ∷ 107 ∷ 7 ∷ [])) (note ∷ note_high ∷ [])
    × (List.◌∷◌ 108 (8 ∷ 107 ∷ 7 ∷ [])
        ≡ apply_all
            (note 7 action_new
              ∷ note_high 7 action_new
              ∷ note 8 action_delete
              ∷ note_high 8 action_delete
              ∷ [])
            [])
unfolding final_watchers watchers_after calls calls_of
Runs-Refines_example = Runs-Refines errno errno-IsErrno 0 [] history (one_cache-IsWatched [])

abbrev refusal : ℤ
refusal = negsuc 5

refusal_allowed : (abs refusal ≢ 0) × (refusal ≢ int_min)
refusal_allowed = (ground arith, ground arith)

no_object : (i q : ℕ) → get_elem? no_cache.caches i ≢ some (some (some q))
no_object i q h = ground arith

success_allowed : pos 0 ≢ int_min
success_allowed h = ground arith

address_cache-IsWatched_example :
    Ends
      (λ this v.
        (abs (pos 0) ≡ 0)
        × IsWatched 0 v []
        × (get_elem? v.caches this ≡ some (some (some 0)))
        × (v.client ≡ []))
      (λ x v.
        (abs (pos 0) ≢ 0)
        × Tells errno "nl_cache_mngr_add failed" 0 x
        × (v ≡ record no_cache { vectors = none ∷ [] }))
      (address_cache errno (pos 0) no_cache)
address_cache-IsWatched_example =
    address_cache-IsWatched errno errno-IsErrno (pos 0) no_cache success_allowed (refl, no_object)

destroy-dangling_example :
    (address_cache_destroy 0 >> changed 7 action_new) (one_cache (note ∷ [])) ≡ fault
destroy-dangling_example =
    destroy-dangling 0 0 7 action_new (one_cache (note ∷ [])) (note ∷ [])
      (one_cache-IsWatched (note ∷ [])) 0 refl
