-- ===== src/Route/TypedCache/Iterators/Steps.antt =====
-- Single operations of iterators: which objects they make, change and end.
use nlcpp.Common.{
  ℕ, zero, suc, ◌+◌, ◌<◌, ◌≡◌, ◌≢◌, sym, ap, Option, none, some, arith, Bool-cases, inl, inr,
  get_elem?,
}
use mathlib.Core.Path.{subst}
use nlcpp.Common.Run.{Ends, returns, raises, Ends-then, Ends-map, Ends-attempt}
use nlcpp.Objects.Defs.{Ptr, Libnl, World}
use nlcpp.Objects.Counting.{held, holders}
use nlcpp.Objects.Rules.{Owned, IsLive, Alive, member_lem}
use nlcpp.Objects.Class.{Class, IsClass}
use nlcpp.Objects.Class.Effects.{
  Frame, Unused, New, Changed, Constructed-New, share-New, destroy-Ended, replace_member-Changed,
}
use nlcpp.Route.TypedCache.{NlCache, value, goes_on, advance}
use nlcpp.Route.TypedCache.Iterators.{
  IteratorObject, found, iterator_make, iterator_increment, iterator_destroy,
}

-- A pointer that the outside keeps allocated.
abbrev pub IsKept : (ℕ → ℕ) → Ptr → Type 0
IsKept ext none = Unit {0}
IsKept ext (some x) = 0 < ext x

-- The cache has a reference to each of its objects.
pub record KeepsObjects (c : NlCache) (ext : ℕ → ℕ) : Type 0 where
  pub first_kept : IsKept ext c.first
  pub next_kept : (x : ℕ) → IsKept ext (c.next x)

module _ {l : Libnl} (ext : ℕ → ℕ) (v : World l) where
  pub IsKept-Alive : (p : Ptr) → IsKept ext p → Owned ext v → Alive v p
  IsKept-Alive none h o = tt
  IsKept-Alive (some x) h o = omega (arith, o x)

  -- A new iterator, whose members have these pointers.
  pub record Made (p g : Ptr) (it : IteratorObject) (u : World l) : Type 0 where
    pub obj_live : IsLive u it.obj p
    pub filter_live : IsLive u it.filter g
    pub apart : it.obj ≢ it.filter
    pub obj_unused : Unused v.objects it.obj
    pub filter_unused : Unused v.objects it.filter
    pub frame : Frame v.objects u.objects
    pub counts : (q : ℕ) → holders q u.objects ≡ holders q v.objects + held p q + held g q
    pub owned : Owned ext u

  -- The two members are gone.
  pub record Over (it : IteratorObject) (p g : Ptr) (u : World l) : Type 0 where
    pub frame :
        (j : ℕ) (o : Option Ptr)
        → it.obj ≢ j
        → it.filter ≢ j
        → get_elem? v.objects j ≡ some o
        → get_elem? u.objects j ≡ some o
    pub counts : (q : ℕ) → holders q u.objects + held p q + held g q ≡ holders q v.objects
    pub owned : Owned ext u

  -- Another new object makes an iterator of the two.
  pub New-Made :
      (p g : Ptr) (i j : ℕ) (w u : World l)
      → New ext v p i w
      → New ext w g j u
      → Made p g (record { obj = i; filter = j }) u
  New-Made p g i j w u a b = record {
    obj_live = b.frame i (some p) a.live;
    filter_live = b.live;
    apart = λ e. b.unused i (some p) a.live (sym e);
    obj_unused = a.unused;
    filter_unused = λ x o h. b.unused x o (a.frame x o h);
    frame = λ x o h. b.frame x o (a.frame x o h);
    counts = λ q. omega (arith, a.counts q, b.counts q);
    owned = b.owned;
  }

pub same_value : {A : Type 0} {x y : A} → value x ≡ value y → x ≡ y
same_value h = cc

module _ (c : NlCache) (ext : ℕ → ℕ) (keeps : KeepsObjects c ext) where
  -- What an increment finds is an object of the cache, or null.
  pub advance-IsKept : (fuel : ℕ) (g p q : Ptr) → advance c fuel g p ≡ value q → IsKept ext q
  unfolding advance
  advance-IsKept zero g p q h = cc
  advance-IsKept (suc fuel) g none q h = cc
  advance-IsKept (suc fuel) g (some x) q h = elim (Bool-cases (goes_on c (c.next x) g)) [
    | inl on ↦ advance-IsKept fuel g (c.next x) q (rw on at h)
    | inr off ↦ subst (IsKept ext) (same_value (rw off at h)) (keeps.next_kept x)
  ]

module _ {l : Libnl} (k : Class l) (kc : IsClass l k) (c : NlCache) (ext : ℕ → ℕ)
    (keeps : KeepsObjects c ext) (v : World l) where
  -- Iterator(nl_object *): where the filter is not made, nothing has changed but that an object has come and
  -- gone.
  pub iterator_make-Made :
      (p : Ptr)
      → IsKept ext p
      → Owned ext v
      → Ends
          (λ it u. (b : ℕ) × (l.refs v.store b ≡ 0) × Made ext v p (some b) it u)
          (λ x u.
            k.IsFailure x
            × Frame v.objects u.objects
            × ((q : ℕ) → holders q u.objects ≡ holders q v.objects)
            × Owned ext u)
          (iterator_make k c p v)
  unfolding iterator_make
  iterator_make-Made p kept o =
      Ends-then (share-New k kc ext v p (IsKept-Alive ext v p kept o) o)
        (λ i w a.
          Ends-then
            (Ends-attempt (kc.make_law ext w a.owned)
              (λ j u h. returns (
                h.0,
                omega (arith, h.1, a.owned h.0, a.counts h.0, o h.0),
                New-Made ext v p (some h.0) i j w u a (Constructed-New ext w (some h.0) j u h.3),
              ))
              (λ x u h.
                let at : IsLive u i p = rw h.1.0 a.live in
                Ends-then (destroy-Ended k kc ext u i p at h.1.1)
                  (λ _ z e. raises (
                    h.0,
                    (λ j y there. e.frame j y (a.unused j y there) (rw h.1.0 (a.frame j y there))),
                    (λ q. omega (arith, e.counts q, a.counts q, ap (holders q) h.1.0)),
                    e.owned,
                  ))
                  (λ y z e. absurd e)))
            (λ j u h. returns h) (λ x u h. h))
        (λ x w a. absurd a)

  pub increment-Changed :
      (fuel : ℕ) (it : IteratorObject) (p g q : Ptr)
      → IsLive v it.obj p
      → IsLive v it.filter g
      → advance c fuel g p ≡ value q
      → Owned ext v
      → Ends (λ _ u. Changed ext v it.obj p q u) (λ _ _. ⊥) (iterator_increment k c fuel it v)
  unfolding iterator_increment found
  increment-Changed fuel it p g q hp hg h o =
      rw (member_lem v it.obj p hp, member_lem v it.filter g hg, h, found)
        (replace_member-Changed k kc ext v it.obj p q hp
          (IsKept-Alive ext v q (advance-IsKept c ext keeps fuel g p q h) o) o)

  pub iterator_destroy-Over :
      (it : IteratorObject) (p g : Ptr)
      → IsLive v it.obj p
      → IsLive v it.filter g
      → it.obj ≢ it.filter
      → Owned ext v
      → Ends (λ _ u. Over ext v it p g u) (λ _ _. ⊥) (iterator_destroy k c it v)
  unfolding iterator_destroy
  iterator_destroy-Over it p g hp hg ne o =
      Ends-then (destroy-Ended k kc ext v it.filter g hg o)
        (λ _ w a.
          Ends-map
            (λ _ u b. record {
              frame = λ j y no nf h. b.frame j y no (a.frame j y nf h);
              counts = λ q. omega (arith, a.counts q, b.counts q);
              owned = b.owned;
            })
            (λ x u b. b)
            (destroy-Ended k kc ext w it.obj p (a.frame it.obj (some p) (λ e. ne (sym e)) hp)
              a.owned))
        (λ x w a. a)
