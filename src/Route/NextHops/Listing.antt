-- ===== src/Route/NextHops/Listing.antt =====
-- What `nexthops()` gives of the hops of the route.
use nlcpp.Common.{ℕ, suc, ◌<◌, ◌≡◌, Option, some, List, [], ◌∷◌, ◌++◌, length}
use nlcpp.Objects.Defs.{Ptr}
use nlcpp.Objects.Rules.{Owned}
use nlcpp.Route.NextHop.{NextHopCalls, IsNextHopCalls, Hops}

-- Objects that hold these hops.
abbrev pub live : List ℕ → List (Option Ptr)
live [] = []
live (p ∷ ps) = some (some p) ∷ live ps

-- Consecutive places.
abbrev pub places : ℕ → List ℕ → List ℕ
places k [] = []
places k (p ∷ ps) = k ∷ places (suc k) ps

-- Every number of a list is owned.
abbrev AllOwned : (ℕ → ℕ) → List ℕ → Type 0
AllOwned ext [] = Unit {0}
AllOwned ext (p ∷ ps) = (0 < ext p) × AllOwned ext ps

module _ (n : NextHopCalls) (c : IsNextHopCalls n) (ext : ℕ → ℕ) where
  -- The clones stand behind the objects that were there, and the result says where.
  abbrev pub Listed : (base : List (Option Ptr)) (count : ℕ) → List ℕ → Hops n → Type 0
  Listed base count result v =
      (hops : List ℕ) × (length hops ≡ count)
      × (result ≡ places (length base) hops)
      × (v.objects ≡ base ++ live hops)
      × Owned ext v
