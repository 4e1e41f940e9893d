-- ===== src/Objects/Class.antt =====
-- The interface of a wrapper class whose objects share a reference-counted object of libnl: its
-- special member functions, and what each of them owes to the reference counts.
pub mod Standard
pub mod History
pub mod Effects
use nlcpp.Common.{ℕ, ◌+◌, ◌<◌, ◌≡◌, ◌≢◌, Option, none, some, List, [], ◌∷◌, ◌++◌, length, set}
use nlcpp.Common.Run.{M, Ends, Thrown, ok}
use nlcpp.Objects.Defs.{Ptr, Libnl, World}
use nlcpp.Objects.Rules.{Owned, ◌with◌, IsLive, Alive}
use nlcpp.Objects.Handle.Life.{Constructed, Allocated, Refused}

pub record Class (l : Libnl) : Type 1 where
  -- what the constructor that allocates throws
  pub IsFailure : Thrown → Type 0
  pub make : M (World l) ℕ
  pub take_ownership : Ptr → M (World l) ℕ
  pub share_ownership : Ptr → M (World l) ℕ
  pub move : ℕ → M (World l) ℕ
  pub move_assign : ℕ → ℕ → M (World l) ℕ
  pub destroy : ℕ → M (World l) (Unit {0})

-- Moves and destruction are defined on live objects, change the objects as stated, and leave each
-- reference owned by one object or by the outside. `put` drops the reference of a pointer.
pub record IsMoving (l : Libnl) (put : Ptr → l.Store → l.Store) (move : ℕ → M (World l) ℕ)
    (move_assign : ℕ → ℕ → M (World l) ℕ) (destroy : ℕ → M (World l) (Unit {0})) : Type 0 where
  pub move_law :
      (ext : ℕ → ℕ) (w : World l) (other : ℕ) (p : Ptr)
      → IsLive w other p
      → Owned ext w
      → Ends
          (λ this v.
            (this ≡ length w.objects)
            × (v.objects ≡ set w.objects other (some none) ++ (some p ∷ []))
            × (v.store ≡ w.store)
            × Owned ext v)
          (λ _ _. ⊥)
          (move other w)
  pub self_law : (w : World l) (this : ℕ) → move_assign this this w ≡ ok this w
  pub assign_law :
      (ext : ℕ → ℕ) (w : World l) (this other : ℕ) (p q : Ptr)
      → IsLive w this p
      → IsLive w other q
      → this ≢ other
      → Owned ext w
      → Ends
          (λ r v.
            (r ≡ this)
            × (v.objects ≡ set (set w.objects this (some q)) other (some none))
            × (v.store ≡ put p w.store)
            × Owned ext v)
          (λ _ _. ⊥)
          (move_assign this other w)
  pub destroy_law :
      (ext : ℕ → ℕ) (w : World l) (this : ℕ) (p : Ptr)
      → IsLive w this p
      → Owned ext w
      → Ends
          (λ _ v. (v.objects ≡ set w.objects this none) × (v.store ≡ put p w.store) × Owned ext v)
          (λ _ _. ⊥)
          (destroy this w)

-- Every member function is defined on live objects, changes the objects as stated, and leaves each
-- reference owned by one object or by the outside.
pub record IsClass (l : Libnl) (k : Class l) : Type 0 where
  pub make_law :
      (ext : ℕ → ℕ) (w : World l)
      → Owned ext w
      → Ends (Allocated ext w) (λ e v. k.IsFailure e × Refused ext w v) (k.make w)
  pub take_law :
      (ext : ℕ → ℕ) (w : World l) (p : Ptr)
      → Owned (ext with p) w
      → Ends (Constructed ext w p) (λ _ _. ⊥) (k.take_ownership p w)
  pub share_law :
      (ext : ℕ → ℕ) (w : World l) (p : Ptr)
      → Alive w p
      → Owned ext w
      → Ends (Constructed ext w p) (λ _ _. ⊥) (k.share_ownership p w)
  pub moving : IsMoving l l.put k.move k.move_assign k.destroy
