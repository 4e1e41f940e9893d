-- ===== src/Objects/Class/History.antt =====
-- Whole histories of a wrapper class: constructions, moves, assignments and destructions, in any
-- order, of objects that are live at the time.
use nlcpp.Common.{
  ℕ, ◌-◌, ◌<◌, ◌≡◌, refl, sym, ap, ◌∙◌, Option, none, some, List, [], ◌∷◌, arith, ℕ_discrete,
}
use nlcpp.Common.Run.{after_run, Run, Thrown, Ends, returns, raises}
use mathlib.Core.Path.{subst}
use nlcpp.Objects.Defs.{Ptr, Libnl, World}
use nlcpp.Objects.Counting.{held, holders}
use nlcpp.Objects.Rules.{Owned, ◌with◌, IsLive, Alive}
use nlcpp.Objects.Class.{Class, IsClass}

pub data Call : Type 0 where
  make : Call
  take_ownership share_ownership : Ptr → Call
  move : (other : ℕ) → Call
  move_assign : (this other : ℕ) → Call
  destroy : (this : ℕ) → Call

unfoldable pub step : {l : Libnl} → Class l → Call → World l → Option (World l)
step k make w = after_run (k.make w)
step k (take_ownership p) w = after_run (k.take_ownership p w)
step k (share_ownership p) w = after_run (k.share_ownership p w)
step k (move other) w = after_run (k.move other w)
step k (move_assign this other) w = after_run (k.move_assign this other w)
step k (destroy this) w = after_run (k.destroy this w)

-- The caller names live objects, has the reference that it hands over, and shares what is
-- allocated.
abbrev pub Allowed : {l : Libnl} → (ℕ → ℕ) → Call → World l → Type 0
Allowed ext make w = Unit {0}
Allowed ext (take_ownership none) w = Unit {0}
Allowed ext (take_ownership (some p)) w = 0 < ext p
Allowed ext (share_ownership p) w = Alive w p
Allowed ext (move other) w = (p : Ptr) × IsLive w other p
Allowed ext (move_assign this other) w = (p : Ptr) × (q : Ptr) × IsLive w this p × IsLive w other q
Allowed ext (destroy this) w = (p : Ptr) × IsLive w this p

-- What the outside still owns after the call.
abbrev pub handed : (ℕ → ℕ) → Call → ℕ → ℕ
handed ext (take_ownership p) q = ext q - held p q
handed ext _ q = ext q

-- A run that keeps the references accounted for, however it ends, leaves a state behind.
Ends-some :
    {l : Libnl} {A : Type 0} (ext : ℕ → ℕ) (r : Run (World l) A) {P : A → World l → Type 0}
    {Q : Thrown → World l → Type 0}
    → Ends P Q r
    → ((a : A) (v : World l) → P a v → Owned ext v)
    → ((e : Thrown) (v : World l) → Q e v → Owned ext v)
    → (v : World l) × (after_run r ≡ some v) × Owned ext v
Ends-some ext _ (returns {a} {s = v} p) f g = (v, refl, f a v p)
Ends-some ext _ (raises {e} {s = v} q) f g = (v, refl, g e v q)

hand_over :
    {l : Libnl} (ext : ℕ → ℕ) (p : Ptr) (w : World l)
    → Allowed ext (take_ownership p) w
    → Owned ext w
    → Owned (handed ext (take_ownership p) with p) w
hand_over ext none w a o q = omega (arith, o q)
hand_over ext (some p) w a o q = ground (arith, o q)

module _ {l : Libnl} (k : Class l) (kc : IsClass l k) where
  -- An allowed call is defined and leaves every reference accounted for.
  pub step-Owned :
      (ext : ℕ → ℕ) (c : Call) (w : World l)
      → Allowed ext c w
      → Owned ext w
      → (v : World l) × (step k c w ≡ some v) × Owned (handed ext c) v
  unfolding step
  step-Owned ext make w a o =
      Ends-some ext _ (kc.make_law ext w o) (λ _ _ r. r.3.2) (λ _ _ r. r.1.1)
  step-Owned ext (take_ownership p) w a o =
      Ends-some _ _ (kc.take_law _ w p (hand_over ext p w a o)) (λ _ _ r. r.2) (λ _ _ r. absurd r)
  step-Owned ext (share_ownership p) w a o =
      Ends-some ext _ (kc.share_law ext w p a o) (λ _ _ r. r.2) (λ _ _ r. absurd r)
  step-Owned ext (move other) w a o =
      Ends-some ext _ (kc.moving.move_law ext w other a.0 a.1 o) (λ _ _ r. r.3) (λ _ _ r. absurd r)
  step-Owned ext (move_assign this other) w a o = elim (ℕ_discrete this other) [
    | yes e ↦ (w, rw (← e) (ap after_run (kc.moving.self_law w this)), o)
    | no ne ↦
        Ends-some ext _ (kc.moving.assign_law ext w this other a.0 a.1 a.2 a.3 ne o) (λ _ _ r. r.3)
          (λ _ _ r. absurd r)
  ]
  step-Owned ext (destroy this) w a o =
      Ends-some ext _ (kc.moving.destroy_law ext w this a.0 a.1 o) (λ _ _ r. r.2)
        (λ _ _ r. absurd r)

-- A history of allowed calls, with what the outside owns before and after.
pub data History {l : Libnl} (k : Class l)
    : (ℕ → ℕ) → World l → List Call → (ℕ → ℕ) → World l → Type 0 where
  done : {ext : ℕ → ℕ} {w : World l} → History k ext w [] ext w
  next :
      {ext final : ℕ → ℕ} {w v u : World l} {c : Call} {cs : List Call}
      → Allowed ext c w
      → step k c w ≡ some v
      → History k (handed ext c) v cs final u
      → History k ext w (c ∷ cs) final u

same_some {ℓ} : {A : Type ℓ} {a b : A} → some a ≡ some b → a ≡ b
same_some h = cc

-- No object is alive any more.
abbrev pub AllEnded : List (Option Ptr) → Type 0
AllEnded [] = Unit {0}
AllEnded (none ∷ os) = AllEnded os
AllEnded (some p ∷ os) = ⊥

AllEnded-holders : (q : ℕ) (os : List (Option Ptr)) → AllEnded os → holders q os ≡ 0
unfolding holders
AllEnded-holders q [] h = refl
AllEnded-holders q (none ∷ os) h = omega (arith, AllEnded-holders q os h)
AllEnded-holders q (some p ∷ os) h = absurd h

module _ {l : Libnl} {k : Class l} (kc : IsClass l k) where
  History-Owned :
      {ext final : ℕ → ℕ} {w u : World l} {cs : List Call}
      → History k ext w cs final u
      → Owned ext w
      → Owned final u
  History-Owned done o = o
  History-Owned {w} (next {v} {c} a e h) o =
      let (v', e', o') = step-Owned k kc _ c w a o in
      History-Owned h (subst (Owned _) (same_some (sym e' ∙ e)) o')

  -- After a history that has ended every object's life, libnl's counts are what the outside owns:
  -- nothing leaks and nothing was freed too early.
  pub no_leak :
      {ext final : ℕ → ℕ} {w u : World l} {cs : List Call}
      → History k ext w cs final u
      → Owned ext w
      → AllEnded u.objects
      → (q : ℕ) → l.refs u.store q ≡ final q
  no_leak {u} h o e q = omega (arith, History-Owned h o q, AllEnded-holders q u.objects e)
