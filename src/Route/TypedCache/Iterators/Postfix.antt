-- ===== src/Route/TypedCache/Iterators/Postfix.antt =====
-- Iterator::operator++(int) of src/route.cpp: what the iterator that it returns and the one that it moves on
-- hold.
use nlcpp.Common.{
  ℕ, ◌<◌, refl, List, Bool-cases, inl, inr, ℕ_discrete, Option, ◌+◌, ◌≡◌, ◌≢◌, sym, ap, ◌∙◌, some,
  none, [], ◌∷◌, arith, set, get_elem?, get_elem?-append, get_elem?-append_left, get_elem?-set_ne,
  get_elem?-set_self, get_elem?-ne_length, length, length-set,
}
use nlcpp.Common.Run.{Ends, returns, Ends-then, Ends-map}
use nlcpp.Objects.Defs.{Ptr, Libnl, World}
use nlcpp.Objects.Counting.{held, holders, holders-append, holders-set, holders-one}
use nlcpp.Objects.Rules.{Owned, IsLive, Alive, Owned-Alive, member_lem}
use nlcpp.Objects.Class.{Class, IsClass}
use nlcpp.Objects.Class.Effects.{Unused, FrameBut, replace_member, replace_member-Changed}
use nlcpp.Route.TypedCache.{NlCache, value, advance}
use nlcpp.Route.TypedCache.Iteration.{Chain, head_ptr, matching, skip, advance-skip}
use nlcpp.Route.TypedCache.Iterators.{IteratorObject, found, iterator_post_increment}
use nlcpp.Route.TypedCache.Iterators.Steps.{KeepsObjects, IsKept-Alive, advance-IsKept}

head-skip :
    (c : NlCache) (f : ℕ) (xs : List ℕ) → head_ptr (skip c f xs) ≡ head_ptr (matching c f xs)
unfolding skip matching
head-skip c f [] = refl
head-skip c f (x ∷ xs) = elim (Bool-cases (c.matches x f)) [
  | inl hit ↦ rw hit refl
  | inr miss ↦ rw miss (head-skip c f xs)
]

module _ {l : Libnl} (ext : ℕ → ℕ) (v : World l) where
  -- The pointer of the object at `i` has gone to a new object.
  record Moved (i : ℕ) (p : Ptr) (tmp : ℕ) (u : World l) : Type 0 where
    pub live : IsLive u tmp p
    pub nulled : IsLive u i none
    pub unused : Unused v.objects tmp
    pub frame : FrameBut i v.objects u.objects
    pub counts : (q : ℕ) → holders q u.objects ≡ holders q v.objects
    pub owned : Owned ext u

  -- Each object of before is still there, if not with the same pointer.
  Moved-there :
      (i : ℕ) (p : Ptr) (tmp : ℕ) (u : World l)
      → Moved i p tmp u
      → (j : ℕ) (o : Option Ptr) → get_elem? v.objects j ≡ some o
      → (o' : Option Ptr) × (get_elem? u.objects j ≡ some o')
  Moved-there i p tmp u m j o there = elim (ℕ_discrete i j) [
    | yes e ↦ (some none, rw (sym e) m.nulled)
    | no ne ↦ (o, m.frame j o ne there)
  ]

  -- The iterator `it` has the pointers `q` and `f`, and `tmp` is a new one that has those that `it` had.
  pub record Passed (it : IteratorObject) (p g q f : Ptr) (tmp : IteratorObject) (u : World l)
      : Type 0 where
    pub obj_live : IsLive u it.obj q
    pub filter_live : IsLive u it.filter f
    pub tmp_obj_live : IsLive u tmp.obj p
    pub tmp_filter_live : IsLive u tmp.filter g
    pub tmp_obj_unused : Unused v.objects tmp.obj
    pub tmp_filter_unused : Unused v.objects tmp.filter
    pub tmp_apart : tmp.obj ≢ tmp.filter
    pub frame :
        (j : ℕ) (o : Option Ptr)
        → it.obj ≢ j
        → it.filter ≢ j
        → get_elem? v.objects j ≡ some o
        → get_elem? u.objects j ≡ some o
    pub counts : (r : ℕ) → holders r u.objects ≡ holders r v.objects + held q r + held f r
    pub owned : Owned ext u

module _ {l : Libnl} (k : Class l) (kc : IsClass l k) (ext : ℕ → ℕ) (v : World l) where
  move-Moved :
      (i : ℕ) (p : Ptr)
      → IsLive v i p
      → Owned ext v
      → Ends (Moved ext v i p) (λ _ _. ⊥) (k.move i v)
  move-Moved i p h o =
      Ends-map
        (λ tmp u m.
          let os = set v.objects i (some none) in
          let new : tmp ≡ length os = m.0 ∙ sym (length-set v.objects i (some none)) in
          record {
            live = rw (new, m.1) (get_elem?-append os (some p) []);
            nulled = rw m.1 (
                get_elem?-append_left os (some p ∷ []) i (some none)
                  (get_elem?-set_self v.objects i (some p) (some none) h));
            unused = λ j x there e. get_elem?-ne_length v.objects j x there (sym m.0 ∙ e);
            frame = λ j x ne there. rw m.1 (
                get_elem?-append_left os (some p ∷ []) j x
                  (get_elem?-set_ne v.objects i j (some none) ne ∙ there));
            counts = λ q. omega (
              arith,
              ap (holders q) m.1,
              holders-append q os (some p ∷ []),
              holders-one q (some p),
              holders-set q v.objects i (some p) (some none) h,
            );
            owned = m.3;
          })
        (λ x u m. m) (kc.moving.move_law ext v i p h o)

module _ {l : Libnl} (k : Class l) (kc : IsClass l k) (ext : ℕ → ℕ) (v : World l) where
  -- Both members go to the new iterator.
  moves-Passed :
      (it : IteratorObject) (p g : Ptr)
      → IsLive v it.obj p
      → IsLive v it.filter g
      → it.obj ≢ it.filter
      → Owned ext v
      → Ends
          (λ a w.
            Ends
              (λ b u. Passed ext v it p g none none (record { obj = a; filter = b }) u)
              (λ _ _. ⊥)
              (k.move it.filter w))
          (λ _ _. ⊥)
          (k.move it.obj v)
  moves-Passed it p g hp hg ne o =
      Ends-map
        (λ a w m.
          let at : IsLive w it.filter g = m.frame it.filter (some g) ne hg in
          Ends-map
            (λ b u n. record {
              obj_live = n.frame it.obj (some none) (λ e. ne (sym e)) m.nulled;
              filter_live = n.nulled;
              tmp_obj_live =
                  n.frame a (some p) (λ e. m.unused it.filter (some g) hg (sym e)) m.live;
              tmp_filter_live = n.live;
              tmp_obj_unused = m.unused;
              tmp_filter_unused = λ j t there.
                  let old = Moved-there ext v it.obj p a w m j t there in n.unused j old.0 old.1;
              tmp_apart = λ e. n.unused a (some p) m.live (sym e);
              frame = λ j t no nf there. n.frame j t nf (m.frame j t no there);
              counts = λ r. omega (arith, n.counts r, m.counts r);
              owned = n.owned;
            })
            (λ e u n. n) (move-Moved k kc ext w it.filter g at m.owned))
        (λ e w m. m) (move-Moved k kc ext v it.obj p hp o)

  -- The iterator gets a new pointer, and its filter back.
  replaced-Passed :
      (x : World l) (it : IteratorObject) (p g q : Ptr) (tmp : IteratorObject)
      → IsLive v it.obj p
      → IsLive v it.filter g
      → it.obj ≢ it.filter
      → Alive x q
      → Passed ext v it p g none none tmp x
      → Ends
          (λ _ y.
            Ends (λ _ u. Passed ext v it p g q g tmp u) (λ _ _. ⊥) (replace_member k it.filter g y))
          (λ _ _. ⊥)
          (replace_member k it.obj q x)
  replaced-Passed x it p g q tmp hp hg ne alive m =
      Ends-map
        (λ _ y r.
          let kept : IsLive y tmp.filter g =
            r.frame tmp.filter (some g) (λ e. m.tmp_filter_unused it.obj (some p) hp (sym e))
              m.tmp_filter_live in
          let nulled : IsLive y it.filter none = r.frame it.filter (some none) ne m.filter_live in
          Ends-map
            (λ _ u s. record {
              obj_live = s.frame it.obj (some q) (λ e. ne (sym e)) r.live;
              filter_live = s.live;
              tmp_obj_live =
                  s.frame tmp.obj (some p) (λ e. m.tmp_obj_unused it.filter (some g) hg (sym e))
                    (r.frame tmp.obj (some p) (λ e. m.tmp_obj_unused it.obj (some p) hp (sym e))
                      m.tmp_obj_live);
              tmp_filter_live =
                  s.frame tmp.filter (some g)
                    (λ e. m.tmp_filter_unused it.filter (some g) hg (sym e)) kept;
              tmp_obj_unused = m.tmp_obj_unused;
              tmp_filter_unused = m.tmp_filter_unused;
              tmp_apart = m.tmp_apart;
              frame = λ j t no nf there. s.frame j t nf (r.frame j t no (m.frame j t no nf there));
              counts = λ z. omega (arith, s.counts z, r.counts z, m.counts z);
              owned = s.owned;
            })
            (λ e u s. s)
            (replace_member-Changed k kc ext y it.filter none g nulled
              (Owned-Alive y ext tmp.filter g kept r.owned) r.owned))
        (λ e y r. r) (replace_member-Changed k kc ext x it.obj none q m.obj_live alive m.owned)

module _ {l : Libnl} (k : Class l) (kc : IsClass l k) (c : NlCache) (ext : ℕ → ℕ)
    (keeps : KeepsObjects c ext) (v : World l) where
  post_increment-Passed :
      (fuel : ℕ) (it : IteratorObject) (p g q : Ptr)
      → IsLive v it.obj p
      → IsLive v it.filter g
      → it.obj ≢ it.filter
      → advance c fuel g p ≡ value q
      → Owned ext v
      → Ends (Passed ext v it p g q g) (λ _ _. ⊥) (iterator_post_increment k c fuel it v)
  unfolding iterator_post_increment found
  post_increment-Passed fuel it p g q hp hg ne h o =
      rw (member_lem v it.obj p hp, member_lem v it.filter g hg, h, found)
        (Ends-then (moves-Passed k kc ext v it p g hp hg ne o)
          (λ a w both.
            Ends-then both
              (λ b x m.
                Ends-then
                  (replaced-Passed k kc ext v x it p g q (record { obj = a; filter = b }) hp hg ne
                    (IsKept-Alive ext x q (advance-IsKept c ext keeps fuel g p q h) m.owned) m)
                  (λ _ y set. Ends-then set (λ _ u r. returns r) (λ e u r. r)) (λ e y r. r))
              (λ e x m. m))
          (λ e w m. m))

  -- `it++` of an iterator at an object, with a filter, is defined and does not throw. The iterator that it
  -- returns is a new one with the object and the filter that `it` had; `it` has the first of the objects
  -- behind it that matches the filter, or null where none does, and its filter. Each of them has a
  -- reference of its own to what it points to, and no other object changes. The cache keeps a reference
  -- to each of its objects, and there is more fuel than there are objects behind `it`.
  pub iterator_post_increment-Passed :
      (it : IteratorObject) (x f : ℕ) (xs : List ℕ) (fuel : ℕ)
      → IsLive v it.obj (some x)
      → IsLive v it.filter (some f)
      → it.obj ≢ it.filter
      → Chain c (c.next x) xs
      → length xs < fuel
      → Owned ext v
      → Ends
          (Passed ext v it (some x) (some f) (head_ptr (matching c f xs)) (some f))
          (λ _ _. ⊥)
          (iterator_post_increment k c fuel it v)
  iterator_post_increment-Passed it x f xs fuel hp hg ne chain lt o =
      post_increment-Passed fuel it (some x) (some f) (head_ptr (matching c f xs)) hp hg ne
        (advance-skip c fuel f x xs chain lt ∙ ap value (head-skip c f xs)) o
