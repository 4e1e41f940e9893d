-- ===== src/TestTool/Watches/Events.antt =====
-- What the events of the descriptors print.
use nlcpp.Common.{
  ℕ, zero, suc, ◌+◌, ◌<◌, ◌≤◌, Bool, true, false, Bool-cases, inl, inr, length-set, ◌≡◌, ◌≢◌, refl,
  sym, ap, ◌∙◌, some, List, [], ◌∷◌, ◌++◌, length, get_elem?, arith,
}
use mathlib.Core.List.{append_assoc, append-nil}
use mathlib.Core.Path.{subst}
use nlcpp.Common.Run.{Run, ok, Ends, returns, raises, Ends-then, Ends-map, after_ok}
use nlcpp.Netlink.Socket.Calls.{is_negative}
use nlcpp.Common.Int.{ℤ, pos, negsuc, abs}
use nlcpp.Exception.{Errno, IsErrno, int_min}
use nlcpp.Exception.Codes.{throw_code-Tells}
use nlcpp.Route.Watch.{Action, Watching, call_watchers, changed}
use nlcpp.Route.Watch.Specification.{IsWatched}
use nlcpp.Route.Watch.Refinement.{notified}
use nlcpp.TestTool.Line.{Word}
use nlcpp.TestTool.Watches.{
  Loop, Delivery, event_line, watch_event, deliver, data_delivered, put_manager, manager_ready,
  managers_ready,
}
use nlcpp.TestTool.Watches.Invariant.{IsTold, IsLoop, lines, AreTold-at, AreTold-set}

module _ (e : Errno) (local_text : ℕ → Word) (he : IsErrno e) where
  told_of :
      (obj : ℕ) (action : Action) (p : ℕ) (w : Watching (List Word))
      → IsWatched p w (watch_event e local_text ∷ [])
      → changed obj action w
        ≡ ok tt (record w { client = w.client ++ (event_line e local_text obj action ∷ []) })
  unfolding call_watchers watch_event
  told_of obj action p w h = notified e he p w (watch_event e local_text ∷ []) h obj action

  deliver-lines :
      (changes : List (ℕ × Action)) (p : ℕ) (w : Watching (List Word))
      → IsWatched p w (watch_event e local_text ∷ [])
      → deliver e local_text changes w
        ≡ ok tt (record w { client = w.client ++ lines e local_text changes })
  unfolding deliver
  deliver-lines [] p w h = ap (λ ps. ok tt (record w { client = ps })) (sym (append-nil w.client))
  deliver-lines ((obj, action) ∷ changes) p w h =
      let seen = w.client ++ (event_line e local_text obj action ∷ []) in
      after_ok (λ _. deliver e local_text changes) (told_of obj action p w h)
      ∙ deliver-lines changes p (record w { client = seen })
          (record { told = h.told; stored = h.stored; owned = h.owned })
      ∙ ap (λ ps. ok tt (record w { client = ps }))
          (append_assoc w.client (event_line e local_text obj action ∷ [])
            (lines e local_text changes))

  negative_abs : (z : ℤ) → is_negative z ≡ true → abs z ≢ 0
  negative_abs (pos n) h q = cc
  negative_abs (negsuc n) h q = omega (arith, q)

  -- The changes are printed, whatever the result, and it throws where the result is negative.
  data_delivered-lines :
      (d : Delivery) (p : ℕ) (w : Watching (List Word))
      → IsWatched p w (watch_event e local_text ∷ [])
      → d.result ≢ int_min
      → Ends
          (λ _ v.
            (v ≡ record w { client = w.client ++ lines e local_text d.changes })
            × (is_negative d.result ≡ false))
          (λ _ v.
            (v ≡ record w { client = w.client ++ lines e local_text d.changes })
            × (is_negative d.result ≡ true))
          (data_delivered e local_text d w)
  unfolding data_delivered
  data_delivered-lines d p w h lo =
      rw (deliver-lines d.changes p w h) (elim (Bool-cases (is_negative d.result)) [
        | inl z ↦ rw z (
            Ends-map (λ _ v k. absurd (negative_abs d.result z k.1)) (λ _ v k. (k.0, refl))
              (throw_code-Tells e he "nl_cache_mngr_data_ready failed" _ d.result lo))
        | inr z ↦ rw z (returns (refl, refl))
      ])

  found_at :
      {A : Type 0} (xs : List A) (i : ℕ) → i < length xs → (x : A) × (get_elem? xs i ≡ some x)
  found_at [] i h = absurd (omega (arith, h))
  found_at (x ∷ xs) zero h = (x, refl)
  found_at (x ∷ xs) (suc i) h = found_at xs i (omega (arith, h))

  -- Only the client's state has changed.
  IsTold-same :
      (p : ℕ) (w v : Watching (List Word)) (seen : List Word)
      → IsWatched p w (watch_event e local_text ∷ [])
      → v ≡ record w { client = seen }
      → IsTold e local_text v
  IsTold-same p w v seen h same =
      subst (IsTold e local_text) (sym same)
        (p, record { told = h.told; stored = h.stored; owned = h.owned })

  put-Ends :
      {N N' : Type 0} (i : ℕ) (l : Loop)
      → IsLoop e local_text l
      → (seen : List Word) {r : Run (Watching (List Word)) (Unit {0})}
      → Ends
          (λ _ v. IsTold e local_text v × (v.client ≡ seen) × N)
          (λ _ v. (v.client ≡ seen) × N')
          r
      → Ends
          (λ _ v.
            IsLoop e local_text v
            × (v.printed ≡ seen)
            × (length v.managers ≡ length l.managers)
            × N)
          (λ _ v. (v.printed ≡ seen) × N')
          (put_manager e local_text i l r)
  put-Ends i l h seen (raises same) = raises same
  put-Ends i l h seen (returns {s = v} (told, same, n)) = returns (
    record {
      fds = h.fds ∙ ap suc (sym (length-set l.managers i v));
      kept = h.kept ∙ sym (length-set l.managers i v);
      told = AreTold-set e local_text l.managers i v h.told told;
    },
    same,
    length-set l.managers i v,
    n,
  )

  module _ (data_of : ℕ → Delivery) where
    -- The lines for what the manager at `i` finds.
    abbrev lines_of : ℕ → List Word
    lines_of i = lines e local_text (data_of i).changes

    -- One manager's data.
    manager_ready-lines :
        (i : ℕ) (l : Loop)
        → IsLoop e local_text l
        → (data_of i).result ≢ int_min
        → i < length l.managers
        → Ends
            (λ _ v.
              IsLoop e local_text v
              × (v.printed ≡ l.printed ++ lines_of i)
              × (length v.managers ≡ length l.managers)
              × (is_negative (data_of i).result ≡ false))
            (λ _ v. (v.printed ≡ l.printed ++ lines_of i) × (is_negative (data_of i).result ≡ true))
            (manager_ready e local_text data_of i l)
    unfolding manager_ready
    manager_ready-lines i l h lo lt =
        let (w, found) = found_at l.managers i lt in
        let (p, told) = AreTold-at e local_text l.managers i w h.told found in
        let w' : Watching (List Word) = record w { client = l.printed } in
        let seen = l.printed ++ lines_of i in
        let told' : IsWatched p w' (watch_event e local_text ∷ []) = record {
          told = told.told;
          stored = told.stored;
          owned = told.owned;
        } in
        rw (found, manager_ready)
          (put-Ends i l h seen (
            Ends-map (λ _ v k. (IsTold-same p w' v seen told' k.0, ap (λ x. x.client) k.0, k.1))
              (λ _ v k. (ap (λ x. x.client) k.0, k.1))
              (data_delivered-lines (data_of i) p w' told' lo)))

    -- The lines of the managers whose descriptors have events, from the manager at `i` on.
    unfoldable pub event_lines : (revents : List Bool) → (i : ℕ) → List Word
    event_lines [] i = []
    event_lines (false ∷ revents) i = event_lines revents (suc i)
    event_lines (true ∷ revents) i =
        lines e local_text (data_of i).changes ++ event_lines revents (suc i)

    -- The results of these managers are not the least `int`.
    abbrev pub AreResults : (revents : List Bool) → (i : ℕ) → Type 0
    AreResults [] i = Unit {0}
    AreResults (false ∷ revents) i = AreResults revents (suc i)
    AreResults (true ∷ revents) i = ((data_of i).result ≢ int_min) × AreResults revents (suc i)

    -- libnl reports no error to these managers.
    abbrev pub AreGood : (revents : List Bool) → (i : ℕ) → Type 0
    AreGood [] i = Unit {0}
    AreGood (false ∷ revents) i = AreGood revents (suc i)
    AreGood (true ∷ revents) i = (is_negative (data_of i).result ≡ false) × AreGood revents (suc i)

    -- libnl reports an error to the manager of the event behind `handled`, and to none before it.
    abbrev pub Fails : (revents : List Bool) → (i : ℕ) → (handled : List Bool) → Type 0
    Fails revents i handled =
        (rest : List Bool) × (revents ≡ handled ++ (true ∷ rest))
        × AreGood handled i
        × (is_negative (data_of (i + length handled)).result ≡ true)

    later :
        (i : ℕ) (b : Bool) (handled : List Bool)
        → is_negative (data_of (suc i + length handled)).result ≡ true
        → is_negative (data_of (i + length (b ∷ handled))).result ≡ true
    later i b handled h = subst (λ m. is_negative (data_of m).result ≡ true) (omega arith) h

    managers_ready-from :
        (revents : List Bool) (i : ℕ) (l : Loop)
        → IsLoop e local_text l
        → AreResults revents i
        → i + length revents ≤ length l.managers
        → Ends
            (λ _ v.
              IsLoop e local_text v
              × (v.printed ≡ l.printed ++ event_lines revents i)
              × (length v.managers ≡ length l.managers)
              × AreGood revents i)
            (λ _ v.
              (handled : List Bool) × Fails revents i handled
              × (v.printed ≡ l.printed ++ event_lines (handled ++ (true ∷ [])) i))
            (managers_ready e local_text data_of revents i l)
    unfolding managers_ready event_lines
    managers_ready-from [] i l h rs le = returns (h, sym (append-nil l.printed), refl, tt)
    managers_ready-from (false ∷ revents) i l h rs le =
        Ends-map (λ _ v k. k)
          (λ _ v k. (
            false ∷ k.0,
            (k.1.0, ap (λ es. false ∷ es) k.1.1, k.1.2, later i false k.0 k.1.3),
            k.2,
          ))
          (managers_ready-from revents (suc i) l h rs (omega (arith, le)))
    managers_ready-from (true ∷ revents) i l h rs le =
        Ends-then (manager_ready-lines i l h rs.0 (omega (arith, le)))
          (λ _ u k.
            Ends-map
              (λ _ v j. (
                j.0,
                j.1
                    ∙ ap (λ ps. ps ++ event_lines revents (suc i)) k.1
                    ∙ append_assoc l.printed (lines_of i) _,
                j.2 ∙ k.2,
                (k.3, j.3),
              ))
              (λ _ v j. (
                true ∷ j.0,
                (j.1.0, ap (λ es. true ∷ es) j.1.1, (k.3, j.1.2), later i true j.0 j.1.3),
                j.2
                    ∙ ap (λ ps. ps ++ event_lines (j.0 ++ (true ∷ [])) (suc i)) k.1
                    ∙ append_assoc l.printed (lines_of i) _,
              ))
              (managers_ready-from revents (suc i) u k.0 rs.1 (omega (arith, le, k.2))))
          (λ _ u k. (
            [],
            (
              revents,
              refl,
              tt,
              subst (λ m. is_negative (data_of m).result ≡ true) (omega arith) k.1,
            ),
            k.0 ∙ ap (λ ps. l.printed ++ ps) (sym (append-nil (lines_of i))),
          ))

    -- With one event, or none, for each descriptor behind that of standard input, the loop of `main` has
    -- the manager of each event look for its data, and no other: it prints one line for each change that
    -- this manager finds, those of one manager in their order and before those of the next, and keeps a
    -- manager and a cache for each descriptor. It returns where libnl reports no error to any of them.
    -- Otherwise it throws at the first one with an error, and has printed the lines up to and with that
    -- one's. No result of nl_cache_mngr_data_ready is the least `int`.
    pub managers_ready-lines :
        (revents : List Bool) (l : Loop)
        → IsLoop e local_text l
        → AreResults revents 0
        → suc (length revents) ≡ length l.poll_fds
        → Ends
            (λ _ v.
              IsLoop e local_text v
              × (v.printed ≡ l.printed ++ event_lines revents 0)
              × (length v.managers ≡ length l.managers)
              × AreGood revents 0)
            (λ _ v.
              (handled : List Bool) × Fails revents 0 handled
              × (v.printed ≡ l.printed ++ event_lines (handled ++ (true ∷ [])) 0))
            (managers_ready e local_text data_of revents 0 l)
    managers_ready-lines revents l h rs len =
        managers_ready-from revents 0 l h rs (omega (arith, len, h.fds))
