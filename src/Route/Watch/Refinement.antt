-- ===== src/Route/Watch/Refinement.antt =====
-- What the callbacks of an address cache see is what the specification says.
use mathlib.Core.Path.{subst}
use nlcpp.Common.{
  ℕ, ◌≡◌, ◌≢◌, refl, sym, ap, ◌∙◌, none, some, List, [], ◌∷◌, ◌++◌, arith, length, get_elem?, set,
  get_elem?-append, get_elem?-append_left, get_elem?-append_one, ◌==◌, false, get_elem?-set_self,
  get_elem?-set_ne, set-append_at, inl, inr, ℕ_discrete,
}
use nlcpp.Common.Int.{ℤ, abs}
use nlcpp.Common.Run.{
  ok, after_run, Ends, returns, raises, Ends-after, Ends-map, Ends-attempt, Ends-then, ◌>>=◌, ◌>>◌,
  pure, throw, Thrown,
}
use nlcpp.Exception.{Errno, IsErrno, int_min}
use nlcpp.Exception.Codes.{throw_code-Tells}
use nlcpp.Objects.Defs.{Ptr}
use nlcpp.Route.Watch.Specification.{
  Op, watch_of, move_of, again, changed_of, watchers_after, calls_of, calls, apply_all,
  apply_all-append, call_watchers-apply_all, IsWatched, Allowed, perform, Refines,
}
use nlcpp.Route.Watch.{
  Action, Watcher, Watching, vector_at, call_watchers, notify, notify_all, changed, delete_vector,
  address_cache, callbacks_of, push_back, watch, address_cache_move, construct_cache,
}

module _ {Client : Type 0} where
  module _ (e : Errno) (he : IsErrno e) (p : ℕ) (w : Watching Client) (ws : List (Watcher Client))
      (h : IsWatched p w ws) where
    vector_found : vector_at w p ≡ some ws
    vector_found = rw (h.stored, vector_at)

    callbacks_found :
        (this : ℕ) (o : Ptr)
        → get_elem? w.caches this ≡ some (some o)
        → callbacks_of this w ≡ ok o w
    unfolding callbacks_of
    callbacks_found this o a = rw (a, callbacks_of)

    pub watch-Refines :
        (this : ℕ) (cb : Watcher Client) (q : ℕ)
        → get_elem? w.caches this ≡ some (some (some q))
        → Ends (λ _ v. Refines p (watch_of this cb) w ws v) (λ _ _. ⊥) (watch this cb w)
    unfolding watch push_back watchers_after calls_of apply_all
    watch-Refines this cb q a =
        let a' : get_elem? w.caches this ≡ some (some (some p)) =
          a ∙ ap (λ x. some (some (some x))) (h.owned this q a) in
        rw (callbacks_found this (some p) a', vector_found, push_back)
          (returns (
            record {
              told = h.told;
              stored = get_elem?-set_self w.vectors p (some ws) (some (ws ++ (cb ∷ []))) h.stored;
              owned = h.owned;
            },
            refl,
          ))

    pub notified :
        (obj : ℕ) (action : Action)
        → changed obj action w ≡ ok tt (record w { client = call_watchers ws obj action w.client })
    unfolding changed notify_all notify
    notified obj action =
        ap (λ ps. notify_all ps obj action w) h.told ∙ rw (h.stored, notify, vector_at) refl

    changed-Refines :
        (obj : ℕ) (action : Action)
        → Ends (λ _ v. Refines p (changed_of obj action) w ws v) (λ _ _. ⊥) (changed obj action w)
    unfolding watchers_after calls_of
    changed-Refines obj action = rw (notified obj action) (
        returns (
          record { told = h.told; stored = h.stored; owned = h.owned },
          call_watchers-apply_all ws obj action w.client,
        ))

    moved_owned :
        (other : ℕ) (o : Ptr)
        → get_elem? w.caches other ≡ some (some o)
        → (i q : ℕ)
        → get_elem? (set (w.caches ++ (some o ∷ [])) other (some none)) i ≡ some (some (some q))
        → q ≡ p
    moved_owned other o a i q b = elim (ℕ_discrete other i) [
      | yes same ↦
          let emptied =
            get_elem?-set_self (w.caches ++ (some o ∷ [])) other (some o) (some none)
              (get_elem?-append_left w.caches (some o ∷ []) other (some o) a) in
          cc (ap (λ j. get_elem? (set (w.caches ++ (some o ∷ [])) other (some none)) j) same)
      | no other_place ↦
          elim (get_elem?-append_one w.caches (some (some q)) (some o) i (
            sym (get_elem?-set_ne (w.caches ++ (some o ∷ [])) other i (some none) other_place)
            ∙ b)) [ inl old ↦ h.owned i q old | inr new ↦ h.owned other q (a ∙ ap some (sym new)) ]
    ]

    move-Refines :
        (other : ℕ) (o : Ptr)
        → get_elem? w.caches other ≡ some (some o)
        → Ends
            (λ _ v. Refines p (move_of other) w ws v)
            (λ _ _. ⊥)
            ((address_cache_move other >>= λ _. pure (tt {0})) w)
    unfolding address_cache_move construct_cache watchers_after calls_of apply_all
    move-Refines other o a =
        rw (callbacks_found other o a) (
          returns
            (record { told = h.told; stored = h.stored; owned = moved_owned other o a }, refl))

    -- The vector of a cache that libnl refuses is deleted again.
    dropped :
        (err : ℤ) (x : Thrown)
        → Ends {A = ℕ}
            (λ _ _. ⊥)
            (λ _ v. Refines p (again err) w ws v)
            ((delete_vector (some (length w.vectors)) >> throw x)
              (record w { vectors = w.vectors ++ (some [] ∷ []) }))
    unfolding delete_vector watchers_after calls_of apply_all
    dropped err x =
        let removed : set (w.vectors ++ (some [] ∷ [])) (length w.vectors) none
            ≡ w.vectors ++ (none ∷ []) =
          set-append_at w.vectors (some []) none [] in
        rw (get_elem?-append w.vectors (some []) [], delete_vector, vector_at)
          (raises (
            record {
              told = h.told;
              stored =
                  rw removed (get_elem?-append_left w.vectors (none ∷ []) p (some ws) h.stored);
              owned = h.owned;
            },
            refl,
          ))

    again-Refines :
        (err : ℤ)
        → abs err ≢ 0
        → err ≢ int_min
        → Ends
            (λ _ v. Refines p (again err) w ws v)
            (λ _ v. Refines p (again err) w ws v)
            ((address_cache e err >>= λ _. pure (tt {0})) w)
    unfolding address_cache watchers_after calls_of apply_all
    again-Refines err nz lo =
        let answered : (abs err == 0) ≡ false = ground arith in
        let added : Watching Client = record w { vectors = w.vectors ++ (some [] ∷ []) } in
        rw answered (
          Ends-then
            (Ends-attempt {P' = λ _ _. ⊥}
              (throw_code-Tells e he "nl_cache_mngr_add failed" added err lo)
              (λ _ t k. absurd (nz k.1)) (λ x t k. rw k.0 (dropped err x)))
            (λ _ t k. absurd k) (λ _ t k. k))

    -- Every allowed operation is defined, and what it does to the watchers and to the client's state is
    -- what the specification says.
    perform-Refines :
        (op : Op Client)
        → Allowed op w
        → (v : Watching Client) × (after_run (perform e op w) ≡ some v) × Refines p op w ws v
    unfolding perform
    perform-Refines (watch_of this cb) a =
        Ends-after (Ends-map (λ _ v k. k) (λ _ v k. absurd k) (watch-Refines this cb a.0 a.1))
    perform-Refines (move_of other) a =
        Ends-after (Ends-map (λ _ v k. k) (λ _ v k. absurd k) (move-Refines other a.0 a.1))
    perform-Refines (again err) a = Ends-after (again-Refines err a.0 a.1)
    perform-Refines (changed_of obj action) a =
        Ends-after (Ends-map (λ _ v k. k) (λ _ v k. absurd k) (changed-Refines obj action))

  -- A history of allowed operations.
  pub data Runs (e : Errno) : Watching Client → List (Op Client) → Watching Client → Type 0 where
    done : {w : Watching Client} → Runs e w [] w
    next :
        {w v u : Watching Client} {op : Op Client} {ops : List (Op Client)}
        → Allowed op w
        → after_run (perform e op w) ≡ some v
        → Runs e v ops u
        → Runs e w (op ∷ ops) u

  -- The watchers at the end of a history.
  unfoldable pub final_watchers : List (Op Client) → List (Watcher Client) → List (Watcher Client)
  final_watchers [] ws = ws
  final_watchers (op ∷ ops) ws = final_watchers ops (watchers_after op ws)

  same_state : {v u : Watching Client} → some v ≡ some u → v ≡ u
  same_state h = cc

  -- Whatever is done to a manager with one address cache and to the objects that hold it, short of
  -- destroying the cache, and in whatever order: for each change the callbacks that `watch` was given
  -- before are called once each, in the order in which they were given, also after moves of the cache
  -- and refused requests for a second one; and nothing else is called.
  pub Runs-Refines :
      (e : Errno) (he : IsErrno e) (p : ℕ) {w u : Watching Client} {ops : List (Op Client)}
      (ws : List (Watcher Client))
      → Runs e w ops u
      → IsWatched p w ws
      → IsWatched p u (final_watchers ops ws) × (u.client ≡ apply_all (calls ops ws) w.client)
  unfolding final_watchers calls apply_all
  Runs-Refines e he p ws done h = (h, refl)
  Runs-Refines e he p {w} ws (next {v} {op} {ops} a r runs) h =
      let (v', r', (h', c')) = perform-Refines e he p w ws h op a in
      let same : v' ≡ v = same_state (sym r' ∙ r) in
      let rest =
        Runs-Refines e he p (watchers_after op ws) runs
          (subst (λ x. IsWatched p x (watchers_after op ws)) same h') in
      (
        rest.0,
        rest.1
            ∙ ap (apply_all (calls ops (watchers_after op ws))) (ap (λ x. x.client) (sym same) ∙ c')
            ∙ sym (apply_all-append (calls_of op ws) (calls ops (watchers_after op ws)) w.client),
      )
