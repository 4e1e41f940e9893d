-- ===== src/Route/TypedCache/Iterators/Balance.antt =====
-- A range-based loop over a cache gives back every reference that its iterators take.
use nlcpp.Common.{
  ℕ, zero, suc, ◌+◌, ◌≡◌, ◌≢◌, refl, sym, ap, ◌∙◌, not, none, some, List, ◌∷◌, arith,
}
use nlcpp.Common.Run.{ok, Ends, returns, ◌>>◌, pure, Ends-then}
use nlcpp.Objects.Defs.{Ptr, Libnl, World}
use nlcpp.Objects.Counting.{held, holders}
use nlcpp.Objects.Rules.{Owned, IsLive, member_lem}
use nlcpp.Objects.Class.{Class, IsClass}
use nlcpp.Objects.Class.Effects.{Frame, Unused, Changed}
use nlcpp.Route.TypedCache.{
  NlCache, Outcome, value, Iterator, ptr_eq, advance, increment, visit, iterator_at,
}
use nlcpp.Route.TypedCache as Pure
use nlcpp.Route.TypedCache.Iterators.{
  IteratorObject, iterator_differs, iterator_deref, next_round, rounds, iterator_destroy,
}
use nlcpp.Route.TypedCache.Iterators.Steps.{
  same_value, KeepsObjects, Over, increment-Changed, iterator_destroy-Over,
}

-- The parts of a chain that comes to a value.
pub then-eq-value :
    {A B : Type 0} (o : Outcome A) (f : A → Outcome B) {b : B}
    → Pure.◌>>=◌ o f ≡ value b
    → (a : A) × (o ≡ value a) × (f a ≡ value b)
then-eq-value (value a) f h = (a, refl, h)
then-eq-value Outcome.null_passed f h = cc
then-eq-value Outcome.unfinished f h = cc

-- The first round of a loop that comes to a value.
visit_inv :
    (c : NlCache) (inner fuel : ℕ) (b x : ℕ) (g : Ptr) (seen : List Ptr)
    → visit c inner (suc fuel) (iterator_at c b none) (record { obj = some x; filter = g })
      ≡ value seen
    → (q : Ptr) × (rest : List Ptr) × (advance c inner g (some x) ≡ value q)
      × (visit c inner fuel (iterator_at c b none) (record { obj = q; filter = g }) ≡ value rest)
      × (some x ∷ rest ≡ seen)
unfolding visit increment iterator_at
visit_inv c inner fuel b x g seen h =
    let it : Iterator = record { obj = some x; filter = g } in
    let (next, stepped, others) =
      then-eq-value (increment c inner it)
        (λ next.
          Pure.◌>>=◌ (visit c inner fuel (iterator_at c b none) next) (λ s. value (some x ∷ s)))
        h in
    let (q, advanced, moved) =
      then-eq-value (advance c inner g (some x)) (λ q. value (record { obj = q; filter = g }))
        stepped in
    let (rest, visited, all) =
      then-eq-value (visit c inner fuel (iterator_at c b none) next) (λ s. value (some x ∷ s))
        others in
    (
      q,
      rest,
      advanced,
      ap (visit c inner fuel (iterator_at c b none)) (same_value moved) ∙ visited,
      same_value all,
    )

module _ {l : Libnl} (ext : ℕ → ℕ) (w : World l) where
  -- All other objects are as they were, and so is each reference count.
  pub record Balanced (u : World l) : Type 0 where
    pub frame : Frame w.objects u.objects
    pub counts : (q : ℕ) → l.refs u.store q ≡ l.refs w.store q
    pub owned : Owned ext u

  module _ (it last : IteratorObject) (g : Ptr) (b : ℕ) where
    -- The members of the two iterators of a loop are four new objects.
    pub record Apart : Type 0 where
      pub obj_unused : Unused w.objects it.obj
      pub filter_unused : Unused w.objects it.filter
      pub end_unused : Unused w.objects last.obj
      pub blank_unused : Unused w.objects last.filter
      pub obj_filter : it.obj ≢ it.filter
      pub obj_end : it.obj ≢ last.obj
      pub obj_blank : it.obj ≢ last.filter
      pub filter_end : it.filter ≢ last.obj
      pub filter_blank : it.filter ≢ last.filter
      pub end_blank : last.obj ≢ last.filter

    -- During the loop, with the iterator at `p`.
    pub record Looping (p : Ptr) (v : World l) : Type 0 where
      pub obj_live : IsLive v it.obj p
      pub filter_live : IsLive v it.filter g
      pub end_live : IsLive v last.obj none
      pub blank_live : IsLive v last.filter (some b)
      pub frame : Frame w.objects v.objects
      pub counts :
          (q : ℕ)
          → holders q v.objects ≡ holders q w.objects + held p q + held g q + held (some b) q
      pub owned : Owned ext v

    Changed-Looping :
        (p p' : Ptr) (v u : World l)
        → Apart
        → Looping p v
        → Changed ext v it.obj p p' u
        → Looping p' u
    Changed-Looping p p' v u a h c = record {
      obj_live = c.live;
      filter_live = c.frame it.filter (some g) a.obj_filter h.filter_live;
      end_live = c.frame last.obj (some none) a.obj_end h.end_live;
      blank_live = c.frame last.filter (some (some b)) a.obj_blank h.blank_live;
      frame = λ j o there. c.frame j o (a.obj_unused j o there) (h.frame j o there);
      counts = λ q. omega (arith, c.counts q, h.counts q);
      owned = c.owned;
    }

    -- The end of the loop.
    Over-Balanced :
        (v u x : World l)
        → Owned ext w
        → Apart
        → Looping none v
        → Over ext v last none (some b) u
        → Over ext u it none g x
        → Balanced x
    Over-Balanced v u x o a h c d = record {
      frame = λ j y there.
          d.frame j y (a.obj_unused j y there) (a.filter_unused j y there)
            (c.frame j y (a.end_unused j y there) (a.blank_unused j y there) (h.frame j y there));
      counts = λ q. omega (arith, d.owned q, d.counts q, c.counts q, h.counts q, o q);
      owned = d.owned;
    }

module _ {l : Libnl} (k : Class l) (kc : IsClass l k) (c : NlCache) (ext : ℕ → ℕ)
    (keeps : KeepsObjects c ext) (w : World l) (it last : IteratorObject) (g : Ptr) (b : ℕ)
    (a : Apart ext w it last g b) where
  differs-ok :
      (p q : Ptr) (v : World l)
      → IsLive v it.obj p
      → IsLive v last.obj q
      → iterator_differs k c it last v ≡ ok (not (ptr_eq p q)) v
  unfolding iterator_differs
  differs-ok p q v h h' = rw (member_lem v it.obj p h, member_lem v last.obj q h')

  -- The rounds go through what the iterators' pointers go through.
  pub rounds-Looping :
      (inner fuel : ℕ) (p : Ptr) (seen : List Ptr) (v : World l)
      → visit c inner fuel (iterator_at c b none) (record { obj = p; filter = g }) ≡ value seen
      → Looping ext w it last g b p v
      → Ends
          (λ items u. (items ≡ seen) × Looping ext w it last g b none u)
          (λ _ _. ⊥)
          (rounds k c inner fuel last it v)
  unfolding visit rounds next_round iterator_deref iterator_at
  rounds-Looping inner zero p seen v h j = cc
  rounds-Looping inner (suc fuel) none seen v h j =
      rw (differs-ok none none v j.obj_live j.end_live) (returns (same_value h, j))
  rounds-Looping inner (suc fuel) (some x) seen v h j =
      let (q, rest, advanced, visited, all) = visit_inv c inner fuel b x g seen h in
      rw (differs-ok (some x) none v j.obj_live j.end_live, member_lem v it.obj (some x) j.obj_live)
        (Ends-then
          (increment-Changed k kc c ext keeps v inner it (some x) g q j.obj_live j.filter_live
            advanced j.owned)
          (λ _ u changed.
            Ends-then
              (rounds-Looping inner fuel q rest u visited
                (Changed-Looping ext w it last g b (some x) q v u a j changed))
              (λ items z r. returns (ap (λ s. some x ∷ s) r.0 ∙ all, r.1)) (λ y z r. r))
          (λ y u r. r))

  -- Both iterators are destroyed at the end.
  pub destroyed-Balanced :
      (items : List Ptr) (v : World l)
      → Owned ext w
      → Looping ext w it last g b none v
      → Ends
          (λ s u. (s ≡ items) × Balanced ext w u)
          (λ _ _. ⊥)
          ((iterator_destroy k c last >> (iterator_destroy k c it >> pure items)) v)
  destroyed-Balanced items v o j =
      Ends-then
        (iterator_destroy-Over k kc c ext keeps v last none (some b) j.end_live j.blank_live
          a.end_blank j.owned)
        (λ _ u d.
          let obj_live : IsLive u it.obj none =
            d.frame it.obj (some none) (λ e. a.obj_end (sym e)) (λ e. a.obj_blank (sym e))
              j.obj_live in
          let filter_live : IsLive u it.filter g =
            d.frame it.filter (some g) (λ e. a.filter_end (sym e)) (λ e. a.filter_blank (sym e))
              j.filter_live in
          Ends-then
            (iterator_destroy-Over k kc c ext keeps u it none g obj_live filter_live a.obj_filter
              d.owned)
            (λ _ x e. returns (refl, Over-Balanced ext w it last g b v u x o a j d e)) (λ x y e. e))
        (λ x u d. d)
