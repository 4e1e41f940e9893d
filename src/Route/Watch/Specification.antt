-- ===== src/Route/Watch/Specification.antt =====
-- What a manager with one address cache owes to its watchers, with neither a heap nor pointers.
use nlcpp.Common.{ℕ, ◌≡◌, ◌≢◌, refl, some, List, [], ◌∷◌, ◌++◌, map, get_elem?}
use nlcpp.Common.Int.{ℤ, abs}
use nlcpp.Common.Run.{M, ◌>>=◌, pure}
use nlcpp.Exception.{Errno, int_min}
use nlcpp.Objects.Defs.{Ptr}
use nlcpp.Route.Watch.{
  Action, Watcher, Watching, call_watchers, changed, address_cache, watch, address_cache_move,
}

-- What happens to a manager with one address cache: `again` asks for a second, which libnl refuses with
-- an error.
pub data Op (Client : Type 0) : Type 0 where
  watch_of : (this : ℕ) → Watcher Client → Op Client
  move_of : (other : ℕ) → Op Client
  again : (err : ℤ) → Op Client
  changed_of : (obj : ℕ) → Action → Op Client

module _ {Client : Type 0} where
  -- The watchers after an operation, and the calls of watchers that it makes.
  unfoldable pub watchers_after : Op Client → List (Watcher Client) → List (Watcher Client)
  watchers_after (watch_of this cb) ws = ws ++ (cb ∷ [])
  watchers_after (move_of other) ws = ws
  watchers_after (again err) ws = ws
  watchers_after (changed_of obj action) ws = ws

  unfoldable pub calls_of : Op Client → List (Watcher Client) → List (Client → Client)
  calls_of (watch_of this cb) ws = []
  calls_of (move_of other) ws = []
  calls_of (again err) ws = []
  calls_of (changed_of obj action) ws = map (λ cb. cb obj action) ws

  -- All calls of a history, in order.
  unfoldable pub calls : List (Op Client) → List (Watcher Client) → List (Client → Client)
  calls [] ws = []
  calls (op ∷ ops) ws = calls_of op ws ++ calls ops (watchers_after op ws)

  unfoldable pub apply_all : List (Client → Client) → Client → Client
  apply_all [] c = c
  apply_all (f ∷ fs) c = apply_all fs (f c)

  pub apply_all-append :
      (fs gs : List (Client → Client)) (c : Client)
      → apply_all (fs ++ gs) c ≡ apply_all gs (apply_all fs c)
  unfolding apply_all
  apply_all-append [] gs c = refl
  apply_all-append (f ∷ fs) gs c = apply_all-append fs gs (f c)

  pub call_watchers-apply_all :
      (ws : List (Watcher Client)) (obj : ℕ) (action : Action) (c : Client)
      → call_watchers ws obj action c ≡ apply_all (map (λ cb. cb obj action) ws) c
  unfolding call_watchers apply_all
  call_watchers-apply_all [] obj action c = refl
  call_watchers-apply_all (w ∷ ws) obj action c =
      call_watchers-apply_all ws obj action (w obj action c)

  -- libnl tells the vector at `p`, which holds these watchers, and every cache object that has a vector
  -- has this one.
  pub record IsWatched (p : ℕ) (w : Watching Client) (ws : List (Watcher Client)) : Type 0 where
    pub told : w.registered ≡ p ∷ []
    pub stored : get_elem? w.vectors p ≡ some (some ws)
    pub owned : (i q : ℕ) → get_elem? w.caches i ≡ some (some (some q)) → q ≡ p

  abbrev pub Allowed : Op Client → Watching Client → Type 0
  Allowed (watch_of this cb) w = (q : ℕ) × (get_elem? w.caches this ≡ some (some (some q)))
  Allowed (move_of other) w = (o : Ptr) × (get_elem? w.caches other ≡ some (some o))
  Allowed (again err) w = (abs err ≢ 0) × (err ≢ int_min)
  Allowed (changed_of obj action) w = Unit {0}

  unfoldable pub perform : Errno → Op Client → M (Watching Client) (Unit {0})
  perform e (watch_of this cb) = watch this cb
  perform e (move_of other) = address_cache_move other >>= λ _. pure tt
  perform e (again err) = address_cache e err >>= λ _. pure tt
  perform e (changed_of obj action) = changed obj action

  -- The state after an operation refines the specification's.
  abbrev pub Refines :
      ℕ → Op Client → Watching Client → List (Watcher Client) → Watching Client → Type 0
  Refines p op w ws v =
      IsWatched p v (watchers_after op ws) × (v.client ≡ apply_all (calls_of op ws) w.client)
