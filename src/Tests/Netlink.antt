-- ===== src/Tests/Netlink.antt =====
-- The lifetime theorems of Address, Cache and Message at a small store.
use nlcpp.Common.{ℕ, zero, suc, ◌≡◌, refl, some, [], ◌∷◌, arith, set}
use nlcpp.Common.Int.{pos}
use nlcpp.Common.Run.{Ends}
use nlcpp.Objects.Defs.{World}
use nlcpp.Objects.Counting.{holders}
use nlcpp.Objects.Rules.{Owned}
use nlcpp.Netlink.Address.{Parse, address_copy_assign}
use nlcpp.Netlink.Address.Lifetime.{address_copy_assign-Owned}
use nlcpp.Tests.Store.{counts, counts-IsCounted, append_one}

-- Two objects with one reference each.
abbrev two : World counts
two = record { objects = some (some 0) ∷ some (some 1) ∷ []; store = 1 ∷ 1 ∷ [] }

abbrev nobody : ℕ → ℕ
nobody q = 0

two-Owned : Owned nobody two
unfolding holders
two-Owned zero = refl
two-Owned (suc zero) = refl
two-Owned (suc (suc q)) = ground arith

-- Every text parses.
abbrev parse_all : Parse counts
parse_all str family s = (pos 0, append_one s)

address_copy_assign-Owned_example :
    Ends
      (λ r v.
        let cloned = counts.clone 1 (counts.put (some 0) two.store) in
        (r ≡ 0)
        × (v.objects ≡ set two.objects 0 (some cloned.0))
        × (v.store ≡ cloned.1)
        × Owned nobody v)
      (λ _ _. ⊥)
      (address_copy_assign 0 1 two)
address_copy_assign-Owned_example =
    address_copy_assign-Owned counts-IsCounted nobody two 0 1 (some 0) 1 refl refl (omega arith)
      two-Owned
