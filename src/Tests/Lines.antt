-- ===== src/Tests/Lines.antt =====
-- Lines of input, with the table of the test tool.
use nlcpp.Common.{ℕ, true, ◌≡◌, ◌≢◌, refl, some, List, [], ◌∷◌, arith}
use nlcpp.Common.Int.{pos}
use nlcpp.TestTool.Line.{Word}
use nlcpp.TestTool.Number.{codes}
use nlcpp.TestTool.Program.{Program, WatchCalls, polled}
use nlcpp.TestTool.Program.Invariant.{IsProgram, Rounds, start, round, Rounds-IsProgram}
use nlcpp.TestTool.Watches.{Delivery, watch_event}
use nlcpp.Route.Watch.{action_new}
use nlcpp.Exception.{int_min}
use nlcpp.Common.Run.{ok}
use nlcpp.Tests.Errors.{errno, errno-IsErrno}
use nlcpp.Tests.SocketLife.{Sockets}
use nlcpp.Tests.Commands.{tool}
use nlcpp.Tests.AddressCommands.{address_calls_here}

abbrev pub watch_calls : WatchCalls Sockets
watch_calls = record { nl_cache_mngr_get_fd = λ s. pos 5; local_text = λ obj. codes "10.0.0.1" }

abbrev pub program : Program Sockets
program = record { tool = tool; poll_fds = pos 0 ∷ []; managers = []; caches = [] }

abbrev del_line : List (Word × List ℕ)
del_line =
    (codes "link-del", codes " ") ∷ (codes "name", codes "\t ") ∷ (codes "eth0", codes " ") ∷ []

-- After a line with address-watch.
abbrev watching : Program Sockets
watching = record {
  tool = record tool { printed = codes "address-watch-done" ∷ [] };
  poll_fds = pos 0 ∷ pos 5 ∷ [];
  managers =
      record {
        vectors = some (watch_event errno watch_calls.local_text ∷ []) ∷ [];
        registered = 0 ∷ [];
        caches = some (some 0) ∷ [];
        client = [];
      }
      ∷ [];
  caches = 0 ∷ [];
}

-- Every manager finds a new address.
abbrev new_address : ℕ → Delivery
new_address i = record { changes = (7, action_new) ∷ []; result = pos 1 }

watched :
    polled address_calls_here watch_calls 3 new_address [] (some (codes "address-watch\n")) program
    ≡ ok tt watching
unfolding polled
watched = refl

-- After an event for its manager, too, and a line without words.
abbrev told : Program Sockets
told = record watching {
  tool = record tool {
    printed = codes "address-watch-done" ∷ codes "address-watch-event new 10.0.0.1" ∷ [];
  };
  managers =
      record {
        vectors = some (watch_event errno watch_calls.local_text ∷ []) ∷ [];
        registered = 0 ∷ [];
        caches = some (some 0) ∷ [];
        client = codes "address-watch-done" ∷ codes "address-watch-event new 10.0.0.1" ∷ [];
      }
      ∷ [];
}

event_told :
    polled address_calls_here watch_calls 3 new_address (true ∷ []) (some (codes " \n")) watching
    ≡ ok tt told
unfolding polled watch_event
event_told = refl

allowed : (n : ℕ) → pos n ≢ int_min
allowed n h = ground arith

rounds : Rounds address_calls_here watch_calls 3 errno-IsErrno (λ s. allowed 0) program told
rounds =
    round new_address [] (some (codes "address-watch\n")) tt refl watched
      (round new_address (true ∷ []) (some (codes " \n")) (allowed 1, tt) refl event_told start)

Rounds-IsProgram_example : IsProgram address_calls_here watch_calls 3 told
Rounds-IsProgram_example =
    Rounds-IsProgram address_calls_here watch_calls 3 errno-IsErrno (λ s. allowed 0) rounds
      (record { fds = refl; kept = refl; told = tt })
