-- ===== src/Route/TypedCache/Iterators/Loops.antt =====
-- Loops over a cache and over a filtered cache, from the first iterator to the last.
use nlcpp.Common.{
  ℕ, ◌<◌, ◌≡◌, refl, ap, ◌∙◌, true, Bool-cases, inl, inr, none, some, List, ◌∷◌, map, arith, length,
}
use mathlib.Core.Path.{subst}
use nlcpp.Common.Run.{
  M, Ends, returns, raises, Thrown, ◌>>◌, throw, Ends-then, Ends-map, Ends-attempt,
}
use nlcpp.Objects.Defs.{Ptr, Libnl, World}
use nlcpp.Objects.Counting.{holders}
use nlcpp.Objects.Rules.{Owned, Owned-Alive, IsLive, member_lem}
use nlcpp.Objects.Class.{Class, IsClass}
use nlcpp.Objects.Class.Effects.{Frame, share-New}
use nlcpp.Route.TypedCache.{
  NlCache, value, match_filter, visit, iterator_at, cache_begin, cache_end,
}
use nlcpp.Route.TypedCache.Iteration.{
  Chain, head_ptr, skip, matching, advance-skip, visit-skip, visit-all,
}
use nlcpp.Route.TypedCache.Iterators.{
  IteratorObject, found, skip_mismatch, iterator_make, iterator_make_filtered, iterator_destroy,
  range_loop, loop_over_cache, begin_filtered, loop_over_filtered,
}
use nlcpp.Route.TypedCache.Iterators.Steps.{
  IsKept, IsKept-Alive, KeepsObjects, Made, New-Made, iterator_make-Made, increment-Changed,
  iterator_destroy-Over,
}
use nlcpp.Route.TypedCache.Iterators.Balance.{Balanced, rounds-Looping, destroyed-Balanced}
use nlcpp.Route.TypedCache.Iterators.Pairs.{Made-Apart, Made-Looping, Changed-Made}

module _ {l : Libnl} (k : Class l) (kc : IsClass l k) (c : NlCache) (ext : ℕ → ℕ)
    (keeps : KeepsObjects c ext) (w : World l) (o : Owned ext w) where
  -- The loop failed, and nothing has changed.
  abbrev pub Failed : Thrown → World l → Type 0
  Failed x u = k.IsFailure x × Balanced ext w u

  -- The first iterator goes where the second one was not made.
  abandoned :
      (p g : Ptr) (it : IteratorObject) (v u : World l) (x : Thrown)
      → Made ext w p g it v
      → k.IsFailure x
      → Frame v.objects u.objects
      → ((q : ℕ) → holders q u.objects ≡ holders q v.objects)
      → Owned ext u
      → Ends {A = IteratorObject} (λ _ _. ⊥) Failed ((iterator_destroy k c it >> throw x) u)
  abandoned p g it v u x m failure frame counts owned =
      Ends-then
        (iterator_destroy-Over k kc c ext keeps u it p g (frame it.obj (some p) m.obj_live)
          (frame it.filter (some g) m.filter_live) m.apart owned)
        (λ _ z e. raises (
          failure,
          record {
            frame = λ j y h.
                e.frame j y (m.obj_unused j y h) (m.filter_unused j y h)
                  (frame j y (m.frame j y h));
            counts = λ q. omega (arith, e.owned q, e.counts q, counts q, m.counts q, o q);
            owned = e.owned;
          },
        ))
        (λ y z e. absurd e)

  -- From the first iterator on.
  range_loop-Balanced :
      (fuel : ℕ) (begin : M (World l) IteratorObject) (p : Ptr) (IsFilter : Ptr → Type 0)
      (seen : List Ptr)
      → ((g : Ptr) (b : ℕ)
          → IsFilter g
          → visit c fuel fuel (iterator_at c b none) (record { obj = p; filter = g }) ≡ value seen)
      → Ends (λ it v. (g : Ptr) × IsFilter g × Made ext w p g it v) Failed (begin w)
      → Ends
          (λ items u. (items ≡ seen) × Balanced ext w u)
          Failed
          (range_loop k c fuel fuel begin (iterator_make k c none) w)
  unfolding range_loop
  range_loop-Balanced fuel begin p IsFilter seen visited made =
      Ends-then made
        (λ it v (g, is_filter, m).
          Ends-then
            (Ends-attempt (iterator_make-Made k kc c ext keeps v none tt m.owned)
              (λ last u n. returns n)
              (λ x u n.
                Ends-map (λ y z e. absurd e) (λ y z e. e)
                  (abandoned p g it v u x m n.0 n.1 n.2 n.3)))
            (λ last u n.
              let (b, _, made') = n in
              let apart = Made-Apart ext w p g b it last v u m made' in
              Ends-then
                (rounds-Looping k kc c ext keeps w it last g b apart fuel fuel p seen u
                  (visited g b is_filter) (Made-Looping ext w p g b it last v u m made'))
                (λ items z r.
                  Ends-map (λ s y d. (d.0 ∙ r.0, d.1)) (λ x y d. absurd d)
                    (destroyed-Balanced k kc c ext keeps w it last g b apart items z o r.1))
                (λ x z r. absurd r))
            (λ x u n. n))
        (λ x v m. m)

  -- A first iterator that is not on a match goes to the first one.
  skipped :
      (fuel f x : ℕ) (xs : List ℕ) (it : IteratorObject) (v : World l)
      → Chain c (c.next x) xs
      → length xs < fuel
      → Made ext w (some x) (some f) it v
      → Ends
          (λ _ u. Made ext w (head_ptr (skip c f (x ∷ xs))) (some f) it u)
          Failed
          (skip_mismatch k c fuel it (c.matches x f) v)
  unfolding skip_mismatch skip
  skipped fuel f x xs it v chain lt m = elim (Bool-cases (c.matches x f)) [
    | inl hit ↦ rw (hit, skip_mismatch) (returns m)
    | inr miss ↦
        rw (miss, skip_mismatch)
          (Ends-map
            (λ _ u d. Changed-Made ext w (some x) (head_ptr (skip c f xs)) (some f) it v u m d)
            (λ y u d. absurd d)
            (increment-Changed k kc c ext keeps v fuel it (some x) (some f) (head_ptr (skip c f xs))
              m.obj_live m.filter_live (advance-skip c fuel f x xs chain lt) m.owned))
  ]

  -- Filtered::begin
  begin_filtered-Made :
      (fuel filter f x : ℕ) (xs : List ℕ)
      → IsLive w filter (some f)
      → Chain c c.first (x ∷ xs)
      → length xs < fuel
      → Ends
          (λ it u. Made ext w (head_ptr (skip c f (x ∷ xs))) (some f) it u)
          Failed
          (begin_filtered k c fuel filter w)
  unfolding begin_filtered iterator_make_filtered found match_filter skip
  begin_filtered-Made fuel filter f x xs h chain lt =
      let kept : IsKept ext (some x) = subst (IsKept ext) chain.0 keeps.first_kept in
      rw (member_lem w filter (some f) h, chain.0)
        (Ends-then (share-New k kc ext w (some x) (IsKept-Alive ext w (some x) kept o) o)
          (λ i v a.
            Ends-then
              (share-New k kc ext v (some f)
                (Owned-Alive v ext filter (some f) (a.frame filter (some (some f)) h) a.owned)
                a.owned)
              (λ j u b.
                Ends-then
                  (skipped fuel f x xs (record { obj = i; filter = j }) u chain.1 lt
                    (New-Made ext w (some x) (some f) i j v u a b))
                  (λ _ z m. returns m) (λ y z m. m))
              (λ y u b. absurd b))
          (λ y v a. absurd a))

  -- A loop over a cache visits each of its objects once, in the order of the cache, and afterwards each
  -- object of libnl has as many references as before and every other wrapper object is as it was; this
  -- is so too where the loop throws, because a default constructed filter cannot be made. The cache
  -- keeps a reference to each of its objects, and an object with no attribute set, as such a filter
  -- is, matches everything. It has enough fuel with one unit more than there are objects.
  pub loop_over_cache-Balanced :
      (xs : List ℕ) (fuel : ℕ)
      → Chain c c.first xs
      → length xs < fuel
      → ((b x : ℕ) → l.refs w.store b ≡ 0 → c.matches x b ≡ true)
      → Ends
          (λ items u. (items ≡ map some xs) × Balanced ext w u)
          Failed
          (loop_over_cache k c fuel w)
  unfolding loop_over_cache iterator_at cache_end cache_begin
  loop_over_cache-Balanced xs fuel chain lt all =
      range_loop-Balanced fuel (iterator_make k c c.first) c.first
        (λ g. (b : ℕ) × (g ≡ some b) × (l.refs w.store b ≡ 0)) (map some xs)
        (λ g b (blank, same, free).
          rw same (visit-all c xs blank b fuel chain (λ x. all blank x free) lt))
        (Ends-map (λ it v (b, free, m). (some b, (b, refl, free), m))
          (λ x v n. (
            n.0,
            record { frame = n.1; counts = λ q. omega (arith, n.2 q, n.3 q, o q); owned = n.3 },
          ))
          (iterator_make-Made k kc c ext keeps w c.first keeps.first_kept o))

  -- A loop over a filtered cache that is not empty visits exactly the objects that match the filter, each
  -- once and in the order of the cache, and afterwards each object of libnl has as many references as
  -- before and every other wrapper object, the filter too, is as it was; this is so too where the loop
  -- throws, because a default constructed filter cannot be made for its end. The cache keeps a reference
  -- to each of its objects. It has enough fuel with one unit more than there are objects.
  pub loop_over_filtered-Balanced :
      (filter f x : ℕ) (xs : List ℕ) (fuel : ℕ)
      → IsLive w filter (some f)
      → Chain c c.first (x ∷ xs)
      → length (x ∷ xs) < fuel
      → Ends
          (λ items u. (items ≡ map some (matching c f (x ∷ xs))) × Balanced ext w u)
          Failed
          (loop_over_filtered k c fuel filter w)
  unfolding loop_over_filtered iterator_at
  loop_over_filtered-Balanced filter f x xs fuel h chain lt =
      range_loop-Balanced fuel (begin_filtered k c fuel filter) (head_ptr (skip c f (x ∷ xs)))
        (λ g. g ≡ some f) (map some (matching c f (x ∷ xs)))
        (λ g b same.
          ap
            (λ q.
              visit c fuel fuel (iterator_at c b none)
                (record { obj = head_ptr (skip c f (x ∷ xs)); filter = q }))
            same
          ∙ (visit-skip c (x ∷ xs) c.first fuel fuel (iterator_at c b none) f chain refl lt lt))
        (Ends-map (λ it v m. (some f, refl, m)) (λ y v n. n)
          (begin_filtered-Made fuel filter f x xs h chain (omega arith)))
