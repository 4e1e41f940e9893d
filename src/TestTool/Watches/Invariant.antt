-- ===== src/TestTool/Watches/Invariant.antt =====
-- What the test tool keeps true of its descriptors, managers and caches.
use nlcpp.Common.{ℕ, zero, suc, ◌≡◌, some, List, [], ◌∷◌, ◌++◌, map, length, get_elem?, set}
use mathlib.Core.Path.{subst}
use mathlib.Core.Option.{some-injective}
use nlcpp.Exception.{Errno}
use nlcpp.Route.Watch.{Action, Watching}
use nlcpp.Route.Watch.Specification.{IsWatched}
use nlcpp.TestTool.Line.{Word}
use nlcpp.TestTool.Watches.{Loop, event_line, watch_event}

module _ (e : Errno) (local_text : ℕ → Word) where
  -- libnl tells the manager's one callback, that of address-watch.
  abbrev pub IsTold : Watching (List Word) → Type 0
  IsTold w = (p : ℕ) × IsWatched p w (watch_event e local_text ∷ [])

  abbrev pub AreTold : List (Watching (List Word)) → Type 0
  AreTold [] = Unit {0}
  AreTold (w ∷ ws) = IsTold w × AreTold ws

  -- Behind the descriptor of standard input there is one for each manager, and each has a cache.
  pub record IsLoop (l : Loop) : Type 0 where
    pub fds : length l.poll_fds ≡ suc (length l.managers)
    pub kept : length l.caches ≡ length l.managers
    pub told : AreTold l.managers

  pub AreTold-at :
      (ws : List (Watching (List Word))) (i : ℕ) (w : Watching (List Word))
      → AreTold ws
      → get_elem? ws i ≡ some w
      → IsTold w
  AreTold-at [] i w h found = cc
  AreTold-at (x ∷ ws) zero w h found = subst IsTold (some-injective x w found) h.0
  AreTold-at (x ∷ ws) (suc i) w h found = AreTold-at ws i w h.1 found

  pub AreTold-set :
      (ws : List (Watching (List Word))) (i : ℕ) (w : Watching (List Word))
      → AreTold ws
      → IsTold w
      → AreTold (set ws i w)
  AreTold-set [] i w hs h = hs
  AreTold-set (x ∷ ws) zero w hs h = (h, hs.1)
  AreTold-set (x ∷ ws) (suc i) w hs h = (hs.0, AreTold-set ws i w hs.1 h)

  -- The lines for changes.
  abbrev pub lines : List (ℕ × Action) → List Word
  lines changes = map (λ c. event_line e local_text c.0 c.1) changes

  pub AreTold-append :
      (ws : List (Watching (List Word))) (w : Watching (List Word))
      → AreTold ws
      → IsTold w
      → AreTold (ws ++ (w ∷ []))
  AreTold-append [] w hs h = (h, tt)
  AreTold-append (x ∷ ws) w hs h = (hs.0, AreTold-append ws w hs.1 h)
