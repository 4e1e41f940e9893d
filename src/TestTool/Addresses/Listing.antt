-- ===== src/TestTool/Addresses/Listing.antt =====
-- What address-list prints.
use nlcpp.Common.{ℕ, ◌≡◌, List, [], ◌∷◌, ◌++◌}
use nlcpp.TestTool.Line.{Word}
use nlcpp.TestTool.Number.{codes}
use nlcpp.TestTool.Addresses.{AddressCalls}
use nlcpp.TestTool.Addresses.Fields.{FieldTexts}

module _ {S Link Object Addr Route : Type 0} (c : AddressCalls S Link Object Addr Route) where
  -- These are the lines of the addresses at these pointers, with these fields.
  abbrev pub Lines : List Word → S → List ℕ → List Word → Type 0
  Lines fields s [] [] = Unit {0}
  Lines fields s [] (l ∷ ls) = ⊥
  Lines fields s (x ∷ xs) [] = ⊥
  Lines fields s (x ∷ xs) (l ∷ ls) =
      ((after : Object) × (text : Word) × FieldTexts c fields (c.address_at s x) text after
        × (l ≡ codes "address-list-item" ++ text))
      × Lines fields s xs ls
