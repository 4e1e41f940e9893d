-- ===== src/Tests/Events.antt =====
-- The events of two managers.
use nlcpp.Common.{
  ℕ, zero, suc, Bool, true, false, ◌≡◌, ◌≢◌, refl, some, List, [], ◌∷◌, ◌++◌, length, get_elem?,
  arith,
}
use nlcpp.Common.Int.{pos}
use nlcpp.Common.Run.{Ends}
use nlcpp.Exception.{int_min}
use nlcpp.Route.Watch.{action_new, action_delete, Watching}
use nlcpp.TestTool.Line.{Word}
use nlcpp.TestTool.Number.{codes}
use nlcpp.TestTool.Watches.{Loop, Delivery, watch_event, managers_ready, event_line, action_word}
use nlcpp.TestTool.Watches.Invariant.{IsTold, IsLoop}
use nlcpp.TestTool.Watches.Events.{managers_ready-lines, event_lines, AreGood, Fails}
use nlcpp.Tests.Errors.{errno, errno-IsErrno}

abbrev text : ℕ → Word
text obj = codes "10.0.0.1"

abbrev manager : Watching (List Word)
manager = record {
  vectors = some (watch_event errno text ∷ []) ∷ [];
  registered = 0 ∷ [];
  caches = some (some 0) ∷ [];
  client = [];
}

abbrev two_managers : Loop
two_managers = record {
  printed = [];
  poll_fds = pos 0 ∷ pos 5 ∷ pos 6 ∷ [];
  managers = manager ∷ manager ∷ [];
  caches = 0 ∷ 0 ∷ [];
}

only_vector : (i q : ℕ) → get_elem? manager.caches i ≡ some (some (some q)) → q ≡ 0
only_vector i q h = ground arith

manager-IsTold : IsTold errno text manager
manager-IsTold = (0, record { told = refl; stored = refl; owned = only_vector })

two_managers-IsLoop : IsLoop errno text two_managers
two_managers-IsLoop = record {
  fds = refl;
  kept = refl;
  told = (manager-IsTold, (manager-IsTold, tt));
}

-- The second manager has two changes.
abbrev data_of : ℕ → Delivery
data_of zero = record { changes = []; result = pos 0 }
data_of (suc n) = record { changes = (7, action_new) ∷ (7, action_delete) ∷ []; result = pos 2 }

allowed : (n : ℕ) → pos n ≢ int_min
allowed n h = ground arith

abbrev new_and_gone : List Word
new_and_gone =
    codes "address-watch-event new 10.0.0.1" ∷ codes "address-watch-event del 10.0.0.1" ∷ []

managers_ready-lines_example :
    Ends
      (λ _ v.
        IsLoop errno text v
        × (v.printed ≡ new_and_gone)
        × (length v.managers ≡ 2)
        × AreGood errno text errno-IsErrno data_of (false ∷ true ∷ []) 0)
      (λ _ v.
        (handled : List Bool) × Fails errno text errno-IsErrno data_of (false ∷ true ∷ []) 0 handled
        × (v.printed ≡ event_lines errno text errno-IsErrno data_of (handled ++ (true ∷ [])) 0))
      (managers_ready errno text data_of (false ∷ true ∷ []) 0 two_managers)
unfolding event_lines event_line action_word
managers_ready-lines_example =
    managers_ready-lines errno text errno-IsErrno data_of (false ∷ true ∷ []) two_managers
      two_managers-IsLoop (allowed 2, tt) refl
