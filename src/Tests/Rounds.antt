-- ===== src/Tests/Rounds.antt =====
-- A round of the test tool that lists the links.
use nlcpp.Common.{ℕ, ◌≡◌, refl, none, some, List, [], ◌∷◌, ◌++◌, arith}
use nlcpp.Common.Int.{pos}
use nlcpp.Common.Run.{ok}
use nlcpp.TestTool.Line.{Word}
use nlcpp.TestTool.Line.Words.{join, line_end}
use nlcpp.TestTool.Number.{codes}
use nlcpp.TestTool.State.{digits}
use nlcpp.TestTool.Args.Settings.{link_words}
use nlcpp.Route.TypedCache.Iteration.{matching}
use nlcpp.TestTool.Links.{link_item}
use nlcpp.TestTool.Links.Reports.{described}
use nlcpp.TestTool.Addresses.{AddressCalls}
use nlcpp.TestTool.Watches.{Delivery}
use nlcpp.TestTool.Program.{polled}
use nlcpp.TestTool.Program.Listing.{quiet, polled-listing}
use nlcpp.Tests.SocketLife.{Sockets, unused}
use nlcpp.Tests.Commands.{Link, tool, calls_with, settings, manager_made, link_cache_made}
use nlcpp.Tests.AddressCommands.{Object, address_calls_here}
use nlcpp.Tests.Lines.{program, watch_calls}

-- Two links.
abbrev with_links : AddressCalls Sockets Link Object Word ℕ
with_links = record address_calls_here { shared = calls_with (some 1) }

abbrev list_line : List (Word × List ℕ)
list_line = (codes "link-list", codes "\t") ∷ (codes "name", codes "  ") ∷ []

abbrev nothing : ℕ → Delivery
nothing i = record { changes = []; result = pos 0 }

polled-listing_example :
    polled with_links watch_calls 3 nothing
      (quiet 0)
      (some (codes " " ++ (join list_line ++ (codes "eth0" ++ line_end (some (codes "x"))))))
      program
    ≡ ok tt (record program {
      tool = record tool { printed = codes "link-list-item 2 eth0" ∷ codes "link-list-done" ∷ [] };
    })
unfolding described matching link_item digits link_words
polled-listing_example =
    polled-listing with_links watch_calls 3 settings program (none, pos 0) (none, pos 0) unused
      unused unused unused tt (manager_made (some 1)) (link_cache_made (some 1)) refl refl nothing 0
      (codes " ") list_line (codes "eth0") (some (codes "x")) 1 (2 ∷ []) (refl, tt) (ground arith)
      (ground arith) refl (refl, (refl, refl)) (omega arith)
