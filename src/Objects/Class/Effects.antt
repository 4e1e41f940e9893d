-- ===== src/Objects/Class/Effects.antt =====
-- What the member functions of a class do to the objects, as seen from the other objects and from the
-- counts.
use nlcpp.Common.{
  ℕ, ◌+◌, ◌≡◌, ◌≢◌, sym, ap, ◌∙◌, Option, none, some, List, [], ◌∷◌, arith, set, get_elem?,
  get_elem?-append, get_elem?-append_left, get_elem?-set_ne, get_elem?-ne_length,
  get_elem?-set_self,
}
use nlcpp.Common.Run.{M, Ends, ◌>>=◌, Ends-then, Ends-map}
use nlcpp.Objects.Defs.{Ptr, Libnl, World}
use nlcpp.Objects.Counting.{held, holders, holders-append, holders-set, holders-one}
use nlcpp.Objects.Rules.{Owned, IsLive, Alive}
use nlcpp.Objects.Handle.Life.{Constructed}
use nlcpp.Objects.Class.{Class, IsClass}

-- The objects of the one list are there in the other, as they were.
abbrev pub Frame : List (Option Ptr) → List (Option Ptr) → Type 0
Frame os us = (j : ℕ) (o : Option Ptr) → get_elem? os j ≡ some o → get_elem? us j ≡ some o

-- The same but for the object at `i`.
abbrev pub FrameBut : ℕ → List (Option Ptr) → List (Option Ptr) → Type 0
FrameBut i os us =
    (j : ℕ) (o : Option Ptr) → i ≢ j → get_elem? os j ≡ some o → get_elem? us j ≡ some o

-- A place where no object has been.
abbrev pub Unused : List (Option Ptr) → ℕ → Type 0
Unused os i = (j : ℕ) (o : Option Ptr) → get_elem? os j ≡ some o → i ≢ j

module _ {l : Libnl} (ext : ℕ → ℕ) (v : World l) where
  -- A new object at `i` with the pointer `p`.
  pub record New (p : Ptr) (i : ℕ) (u : World l) : Type 0 where
    pub live : IsLive u i p
    pub unused : Unused v.objects i
    pub frame : Frame v.objects u.objects
    pub counts : (q : ℕ) → holders q u.objects ≡ holders q v.objects + held p q
    pub owned : Owned ext u

  -- The object at `i` has the pointer `p` in place of `old`.
  pub record Changed (i : ℕ) (old p : Ptr) (u : World l) : Type 0 where
    pub live : IsLive u i p
    pub frame : FrameBut i v.objects u.objects
    pub counts : (q : ℕ) → holders q u.objects + held old q ≡ holders q v.objects + held p q
    pub owned : Owned ext u

  -- The object at `i` is gone.
  pub record Ended (i : ℕ) (old : Ptr) (u : World l) : Type 0 where
    pub frame : FrameBut i v.objects u.objects
    pub counts : (q : ℕ) → holders q u.objects + held old q ≡ holders q v.objects
    pub owned : Owned ext u

  pub Constructed-New : (p : Ptr) (i : ℕ) (u : World l) → Constructed ext v p i u → New p i u
  Constructed-New p i u (place, objects, o) = record {
    live = rw (place, objects) (get_elem?-append v.objects (some p) []);
    unused = λ j x h e. get_elem?-ne_length v.objects j x h (sym place ∙ e);
    frame = λ j x h. rw objects (get_elem?-append_left v.objects (some p ∷ []) j x h);
    counts = λ q. omega (
      arith,
      ap (holders q) objects,
      holders-append q v.objects (some p ∷ []),
      holders-one q (some p),
    );
    owned = o;
  }

module _ {l : Libnl} (k : Class l) (kc : IsClass l k) (ext : ℕ → ℕ) (v : World l) where
  pub share-New :
      (p : Ptr) → Alive v p → Owned ext v → Ends (New ext v p) (λ _ _. ⊥) (k.share_ownership p v)
  share-New p alive o =
      Ends-map (λ i u h. Constructed-New ext v p i u h) (λ x u h. h) (kc.share_law ext v p alive o)

  pub destroy-Ended :
      (i : ℕ) (p : Ptr)
      → IsLive v i p
      → Owned ext v
      → Ends (λ _ u. Ended ext v i p u) (λ _ _. ⊥) (k.destroy i v)
  destroy-Ended i p h o =
      Ends-map
        (λ _ u j. record {
          frame = λ x y ne at. rw j.0 (get_elem?-set_ne v.objects i x none ne ∙ at);
          counts =
              λ q. omega (arith, ap (holders q) j.0, holders-set q v.objects i (some p) none h);
          owned = j.2;
        })
        (λ x u j. j) (kc.moving.destroy_law ext v i p h o)

-- `obj = T(p, share_ownership_of_pointer);` on the member at `i`
unfoldable pub replace_member : {l : Libnl} → Class l → ℕ → Ptr → M (World l) (Unit {0})
replace_member k i p = do tmp ← k.share_ownership p; assigned ← k.move_assign i tmp; k.destroy tmp

module _ {l : Libnl} (k : Class l) (kc : IsClass l k) (ext : ℕ → ℕ) (v : World l) where
  pub replace_member-Changed :
      (i : ℕ) (old p : Ptr)
      → IsLive v i old
      → Alive v p
      → Owned ext v
      → Ends (λ _ u. Changed ext v i old p u) (λ _ _. ⊥) (replace_member k i p v)
  unfolding replace_member
  replace_member-Changed i old p h alive o =
      Ends-then (share-New k kc ext v p alive o)
        (λ tmp w s.
          let ne : i ≢ tmp = λ e. s.unused i (some old) h (sym e) in
          let at : IsLive w i old = s.frame i (some old) h in
          Ends-then (kc.moving.assign_law ext w i tmp old p at s.live ne s.owned)
            (λ r x a.
              let back : tmp ≢ i = λ e. ne (sym e) in
              let moved : get_elem? (set w.objects i (some p)) tmp ≡ some (some p) =
                get_elem?-set_ne w.objects i tmp (some p) ne ∙ s.live in
              let nulled : IsLive x tmp none =
                rw a.1
                  (get_elem?-set_self (set w.objects i (some p)) tmp (some p) (some none) moved) in
              let kept : IsLive x i p = rw a.1 (
                get_elem?-set_ne (set w.objects i (some p)) tmp i (some none) back
                ∙ get_elem?-set_self w.objects i (some old) (some p) at) in
              Ends-map
                (λ _ u e. record {
                  live = e.frame i (some p) back kept;
                  frame = λ j y other there.
                      let apart : tmp ≢ j = s.unused j y there in
                      e.frame j y apart (
                        rw a.1 (
                          get_elem?-set_ne (set w.objects i (some p)) tmp j (some none) apart
                          ∙ get_elem?-set_ne w.objects i j (some p) other
                          ∙ s.frame j y there));
                  counts = λ q. omega (
                    arith,
                    e.counts q,
                    ap (holders q) a.1,
                    holders-set q (set w.objects i (some p)) tmp (some p) (some none) moved,
                    holders-set q w.objects i (some old) (some p) at,
                    s.counts q,
                  );
                  owned = e.owned;
                })
                (λ y u j. j) (destroy-Ended k kc ext x tmp none nulled a.3))
            (λ y x a. a))
        (λ x w s. s)
