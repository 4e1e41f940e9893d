-- ===== src/Route/Watch/Lifecycle.antt =====
-- The begin and the end of an address cache.
use nlcpp.Common.{
  ℕ, ◌≡◌, ◌≢◌, refl, ap, ◌∙◌, false, true, none, some, List, [], ◌∷◌, ◌++◌, ℕ_discrete, arith, ◌==◌,
  length, get_elem?, set, get_elem?-append, get_elem?-append_one, get_elem?-set_self, set-append_at,
  inl, inr,
}
use nlcpp.Common.Int.{ℤ, abs}
use nlcpp.Common.Run.{ok, fault, Ends, returns, raises, Ends-attempt, ◌>>◌, throw, Thrown, and_then}
use nlcpp.Exception.{Errno, IsErrno, int_min}
use nlcpp.Exception.Codes.{Tells, throw_code-Tells}
use nlcpp.Route.Watch.{
  Action, Watcher, Watching, changed, notify, notify_all, delete_vector, address_cache,
  address_cache_destroy, callbacks_of, vector_at, construct_cache,
}
use nlcpp.Route.Watch.Specification.{IsWatched}

module _ {Client : Type 0} where
  -- libnl tells nobody, and no object has a vector.
  abbrev pub IsUnused : Watching Client → Type 0
  IsUnused w = (w.registered ≡ []) × ((i q : ℕ) → get_elem? w.caches i ≢ some (some (some q)))

  module _ (e : Errno) (he : IsErrno e) (err : ℤ) (w : Watching Client) (lo : err ≢ int_min) where
    -- The state after a cache is added to a manager that has none.
    first-IsWatched :
        IsUnused w
        → IsWatched
            (length w.vectors)
            (record w {
              vectors = w.vectors ++ (some [] ∷ []);
              registered = w.registered ++ (length w.vectors ∷ []);
              caches = w.caches ++ (some (some (length w.vectors)) ∷ []);
            })
            []
    first-IsWatched unused = record {
      told = ap (λ ps. ps ++ (length w.vectors ∷ [])) unused.0;
      stored = get_elem?-append w.vectors (some []) [];
      owned = λ i q h.
          elim (get_elem?-append_one w.caches (some (some q)) (some (some (length w.vectors))) i
            h) [ inl old ↦ absurd (unused.1 i q old) | inr new ↦ cc ];
    }

    refused_deleted :
        (x : Thrown)
        → Tells e "nl_cache_mngr_add failed" (abs err) x
        → abs err ≢ 0
        → Ends {A = ℕ}
            (λ this v.
              (abs err ≡ 0)
              × IsWatched (length w.vectors) v []
              × (get_elem? v.caches this ≡ some (some (some (length w.vectors))))
              × (v.client ≡ w.client))
            (λ x v.
              (abs err ≢ 0)
              × Tells e "nl_cache_mngr_add failed" (abs err) x
              × (v ≡ record w { vectors = w.vectors ++ (none ∷ []) }))
            ((delete_vector (some (length w.vectors)) >> throw x)
              (record w { vectors = w.vectors ++ (some [] ∷ []) }))
    unfolding delete_vector
    refused_deleted x tells nz =
        rw (get_elem?-append w.vectors (some []) [], delete_vector, vector_at)
          (raises (
            nz,
            tells,
            ap (λ vs. record w { vectors = vs }) (set-append_at w.vectors (some []) none []),
          ))

    -- The first `addressCache` of a manager: where libnl agrees, it returns an object that libnl will
    -- tell, without any callbacks yet. Otherwise it throws what tells libnl's error, the vector that it
    -- made is freed again, and nothing else has changed.
    pub address_cache-IsWatched :
        IsUnused w
        → Ends
            (λ this v.
              (abs err ≡ 0)
              × IsWatched (length w.vectors) v []
              × (get_elem? v.caches this ≡ some (some (some (length w.vectors))))
              × (v.client ≡ w.client))
            (λ x v.
              (abs err ≢ 0)
              × Tells e "nl_cache_mngr_add failed" (abs err) x
              × (v ≡ record w { vectors = w.vectors ++ (none ∷ []) }))
            (address_cache e err w)
    unfolding address_cache construct_cache
    address_cache-IsWatched unused = elim (ℕ_discrete (abs err) 0) [
      | yes z ↦
          let agreed : (abs err == 0) ≡ true = ground arith in
          let added : Watching Client = record w {
            vectors = w.vectors ++ (some [] ∷ []);
            registered = w.registered ++ (length w.vectors ∷ []);
          } in
          rw agreed (
            Ends-attempt (throw_code-Tells e he "nl_cache_mngr_add failed" added err lo)
              (λ _ t k.
                rw k.0 (returns (z, first-IsWatched unused, get_elem?-append w.caches _ [], refl)))
              (λ x t k. absurd (k.1 z)))
      | no nz ↦
          let refused : (abs err == 0) ≡ false = ground arith in
          let added : Watching Client = record w { vectors = w.vectors ++ (some [] ∷ []) } in
          rw refused (
            Ends-attempt (throw_code-Tells e he "nl_cache_mngr_add failed" added err lo)
              (λ _ t k. absurd (nz k.1)) (λ x t k. rw k.0 (refused_deleted x k.2 nz)))
    ]

  module _ (p this obj : ℕ) (action : Action) (w : Watching Client) (ws : List (Watcher Client))
      (h : IsWatched p w ws) where
    destroyed :
        (q : ℕ)
        → get_elem? w.caches this ≡ some (some (some q))
        → address_cache_destroy this w
          ≡ ok tt (record w { vectors = set w.vectors p none; caches = set w.caches this none })
    unfolding address_cache_destroy callbacks_of delete_vector
    destroyed q held =
        let held' : get_elem? w.caches this ≡ some (some (some p)) =
          held ∙ ap (λ x. some (some (some x))) (h.owned this q held) in
        rw (held', callbacks_of, h.stored, delete_vector, vector_at) refl

    -- Where an address cache that has its vector is destroyed before its manager, the next change that
    -- the manager hears of makes libnl's callback read the freed vector.
    pub destroy-dangling :
        (q : ℕ)
        → get_elem? w.caches this ≡ some (some (some q))
        → (address_cache_destroy this >> changed obj action) w ≡ fault
    unfolding changed notify_all notify
    destroy-dangling q held =
        let left : Watching Client = record w {
          vectors = set w.vectors p none;
          caches = set w.caches this none;
        } in
        ap (λ r. and_then r (λ _. changed obj action)) (destroyed q held)
        ∙ ap (λ ps. notify_all ps obj action left) h.told
        ∙ rw (get_elem?-set_self w.vectors p (some ws) none h.stored, notify, vector_at) refl
