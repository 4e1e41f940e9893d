-- ===== src/TestTool/Watches/Starting.antt =====
-- What address-watch adds and prints.
use nlcpp.Common.{ℕ, suc, length-append_one, ◌≡◌, ◌≢◌, refl, sym, ap, ◌∙◌, List, [], ◌∷◌, ◌++◌}
use mathlib.Core.Path.{subst}
use nlcpp.Common.Int.{ℤ}
use nlcpp.Common.Run.{Run, Ends, returns, raises, Ends-then}
use nlcpp.Exception.{Errno, IsErrno, int_min}
use nlcpp.Exception.Codes.{throw_code-Tells}
use nlcpp.Route.Watch.{Watching}
use nlcpp.Route.Watch.Specification.{watchers_after}
use nlcpp.Route.Watch.Refinement.{watch-Refines}
use nlcpp.Route.Watch.Lifecycle.{address_cache-IsWatched}
use nlcpp.TestTool.Line.{Word}
use nlcpp.TestTool.Number.{codes}
use nlcpp.TestTool.Watches.{
  Loop, watch_event, new_watching, watched_cache, keep_manager, address_watch,
}
use nlcpp.TestTool.Watches.Invariant.{IsTold, IsLoop, AreTold-append}

module _ (e : Errno) (local_text : ℕ → Word) (he : IsErrno e) where
  watched_cache-IsTold :
      (add_err : ℤ) (printed : List Word)
      → add_err ≢ int_min
      → Ends
          (λ _ w. IsTold e local_text w)
          (λ _ _. Unit {0})
          (watched_cache e local_text add_err (new_watching e local_text printed))
  unfolding watched_cache watchers_after
  watched_cache-IsTold add_err printed lo =
      let cb = watch_event e local_text in
      Ends-then
        (address_cache-IsWatched e he add_err (new_watching e local_text printed) lo
          (refl, λ i q h. cc))
        (λ cache w k.
          Ends-then (watch-Refines e he 0 w [] k.1 cache cb 0 k.2) (λ _ v j. returns (0, j.0))
            (λ _ v j. absurd j))
        (λ _ w k. tt)

  keep_manager-IsLoop :
      (fd : ℤ) (l : Loop) {r : Run (Watching (List Word)) ℕ}
      → IsLoop e local_text l
      → Ends (λ _ w. IsTold e local_text w) (λ _ _. Unit {0}) r
      → Ends
          (λ _ v.
            IsLoop e local_text v
            × (v.printed ≡ l.printed ++ (codes "address-watch-done" ∷ []))
            × (v.poll_fds ≡ l.poll_fds ++ (fd ∷ [])))
          (λ _ v. v ≡ l)
          (keep_manager e local_text fd l r)
  keep_manager-IsLoop fd l h (raises tt') = raises refl
  keep_manager-IsLoop fd l h (returns {a = cache} {s = w} told) = returns (
    record {
      fds = length-append_one l.poll_fds fd ∙ ap suc (h.fds ∙ sym (length-append_one l.managers w));
      kept =
          length-append_one l.caches cache ∙ ap suc h.kept ∙ sym (length-append_one l.managers w);
      told = AreTold-append e local_text l.managers w h.told told;
    },
    refl,
    refl,
  )

  -- address-watch keeps a manager and a cache for each descriptor behind that of standard input, and
  -- each manager tells the callback of the command. It adds the new manager's descriptor, and prints
  -- one line; where it throws, nothing has changed.
  pub address_watch-IsLoop :
      (alloc_err add_err fd : ℤ) (l : Loop)
      → IsLoop e local_text l
      → alloc_err ≢ int_min
      → add_err ≢ int_min
      → Ends
          (λ _ v.
            IsLoop e local_text v
            × (v.printed ≡ l.printed ++ (codes "address-watch-done" ∷ []))
            × (v.poll_fds ≡ l.poll_fds ++ (fd ∷ [])))
          (λ _ v. v ≡ l)
          (address_watch e local_text alloc_err add_err fd l)
  unfolding address_watch
  address_watch-IsLoop alloc_err add_err fd l h lo lo' =
      Ends-then (throw_code-Tells e he "nl_cache_mngr_alloc failed" l alloc_err lo)
        (λ _ u k.
          subst
            (λ x.
              Ends
                (λ _ v.
                  IsLoop e local_text v
                  × (v.printed ≡ l.printed ++ (codes "address-watch-done" ∷ []))
                  × (v.poll_fds ≡ l.poll_fds ++ (fd ∷ [])))
                (λ _ v. v ≡ l)
                (keep_manager e local_text fd x
                  (watched_cache e local_text add_err (new_watching e local_text x.printed))))
            (sym k.0) (keep_manager-IsLoop fd l h (watched_cache-IsTold add_err l.printed lo')))
        (λ _ u k. k.0)
