-- ===== src/Route/TypedCache/Iteration.antt =====
-- What a range-based loop over a cache visits.
use nlcpp.Common.{
  ℕ, zero, suc, ◌<◌, ◌≡◌, refl, sym, ap, ◌∙◌, true, false, none, some, List, [], ◌∷◌, map, arith,
  if◌then◌else◌, inl, inr, Bool-cases, length,
}
use nlcpp.Objects.Defs.{Ptr}
use nlcpp.Route.TypedCache.{
  NlCache, value, null_passed, ◌>>=◌, Iterator, goes_on, advance, increment, post_increment,
  iterator_at, cache_begin, cache_end, filtered_end, filtered_begin, visit, visit_filtered,
}

abbrev pub head_ptr : List ℕ → Ptr
head_ptr [] = none
head_ptr (x ∷ xs) = some x

module _ (c : NlCache) where
  -- The objects from a pointer on, in the order of the cache.
  abbrev pub Chain : Ptr → List ℕ → Type 0
  Chain p [] = p ≡ none
  Chain p (x ∷ xs) = (p ≡ some x) × Chain (c.next x) xs

  -- The objects that match a filter, in order.
  unfoldable pub matching : ℕ → List ℕ → List ℕ
  matching f [] = []
  matching f (x ∷ xs) = if c.matches x f then x ∷ matching f xs else matching f xs

  -- From the first object that matches on.
  unfoldable pub skip : ℕ → List ℕ → List ℕ
  skip f [] = []
  skip f (x ∷ xs) = if c.matches x f then x ∷ xs else skip f xs

  Chain-head : (p : Ptr) (xs : List ℕ) → Chain p xs → p ≡ head_ptr xs
  Chain-head p [] h = h
  Chain-head p (x ∷ xs) h = h.0

  advance_miss :
      (k f x y : ℕ)
      → c.next x ≡ some y
      → c.matches y f ≡ false
      → advance c (suc k) (some f) (some x) ≡ advance c k (some f) (some y)
  unfolding advance
  advance_miss k f x y n m = rw (n, goes_on, m)

  advance_hit :
      (k f x y : ℕ)
      → c.next x ≡ some y
      → c.matches y f ≡ true
      → advance c (suc k) (some f) (some x) ≡ value (some y)
  unfolding advance
  advance_hit k f x y n m = rw (n, goes_on, m)

  advance_end : (k f x : ℕ) → c.next x ≡ none → advance c (suc k) (some f) (some x) ≡ value none
  unfolding advance
  advance_end k f x n = rw n

  pub advance-skip :
      (k f x : ℕ) (xs : List ℕ)
      → Chain (c.next x) xs
      → length xs < k
      → advance c k (some f) (some x) ≡ value (head_ptr (skip f xs))
  unfolding skip
  advance-skip zero f x xs h lt = absurd (omega arith)
  advance-skip (suc k) f x [] h lt = advance_end k f x h
  advance-skip (suc k) f x (y ∷ ys) h lt = elim (Bool-cases (c.matches y f)) [
    | inl hit ↦ rw hit (advance_hit k f x y h.0 hit)
    | inr miss ↦ rw miss (advance_miss k f x y h.0 miss ∙ advance-skip k f y ys h.1 (omega arith))
  ]

  visit_step :
      (inner fuel : ℕ) (end : Iterator) (f x : ℕ) (next : Ptr) (seen : List Ptr)
      → end.obj ≡ none
      → advance c inner (some f) (some x) ≡ value next
      → visit c inner fuel end (record { obj = next; filter = some f }) ≡ value seen
      → visit c inner (suc fuel) end (record { obj = some x; filter = some f })
        ≡ value (some x ∷ seen)
  unfolding visit
  visit_step inner fuel end f x next seen e a v = rw (a, v, e)

  visit_end :
      (inner fuel : ℕ) (end : Iterator) (filter : Ptr)
      → end.obj ≡ none
      → visit c inner (suc fuel) end (record { obj = none; filter = filter }) ≡ value []
  unfolding visit
  visit_end inner fuel end filter e = rw e

  pub visit-skip :
      (xs : List ℕ) (p : Ptr) (inner fuel : ℕ) (end : Iterator) (f : ℕ)
      → Chain p xs
      → end.obj ≡ none
      → length xs < fuel
      → length xs < inner
      → visit c inner fuel end (record { obj = head_ptr (skip f xs); filter = some f })
        ≡ value (map some (matching f xs))
  unfolding skip matching
  visit-skip xs p inner zero end f h e lt li = absurd (omega arith)
  visit-skip [] p inner (suc fuel) end f h e lt li = visit_end inner fuel end (some f) e
  visit-skip (x ∷ xs) p inner (suc fuel) end f h e lt li = elim (Bool-cases (c.matches x f)) [
    | inl hit ↦ rw hit (
        visit_step inner fuel end f x (head_ptr (skip f xs)) (map some (matching f xs)) e
          (advance-skip inner f x xs h.1 (omega arith))
          (visit-skip xs (c.next x) inner fuel end f h.1 e (omega arith) (omega arith)))
    | inr miss ↦
        rw miss (visit-skip xs (c.next x) inner (suc fuel) end f h.1 e (omega arith) (omega arith))
  ]

  matching-all : (f : ℕ) (xs : List ℕ) → ((x : ℕ) → c.matches x f ≡ true) → matching f xs ≡ xs
  unfolding matching
  matching-all f [] h = refl
  matching-all f (x ∷ xs) h = rw (h x, matching-all f xs h)

  skip-all : (f : ℕ) (xs : List ℕ) → ((x : ℕ) → c.matches x f ≡ true) → skip f xs ≡ xs
  unfolding skip
  skip-all f [] h = refl
  skip-all f (x ∷ xs) h = rw (h x)

  -- A loop over a cache visits each of its objects once, in the order of the cache, where an object
  -- with no attribute set, as a default constructed filter is, matches everything.
  pub visit-all :
      (xs : List ℕ) (blank blank' fuel : ℕ)
      → Chain c.first xs
      → ((x : ℕ) → c.matches x blank ≡ true)
      → length xs < fuel
      → visit c fuel fuel (cache_end c blank') (cache_begin c blank) ≡ value (map some xs)
  unfolding cache_begin cache_end
  visit-all xs blank blank' fuel h m lt =
      ap
        (λ p.
          visit c fuel fuel (iterator_at c blank' none) (record { obj = p; filter = some blank }))
        (Chain-head c.first xs h ∙ ap head_ptr (sym (skip-all blank xs m)))
      ∙ visit-skip xs c.first fuel fuel (iterator_at c blank' none) blank h refl lt lt
      ∙ ap (λ ys. value (map some ys)) (matching-all blank xs m)

  filtered_begin-skip :
      (x : ℕ) (xs : List ℕ) (f fuel : ℕ)
      → Chain c.first (x ∷ xs)
      → length xs < fuel
      → filtered_begin c fuel (some f)
        ≡ value (record { obj = head_ptr (skip f (x ∷ xs)); filter = some f })
  unfolding filtered_begin skip
  filtered_begin-skip x xs f fuel h lt = elim (Bool-cases (c.matches x f)) [
    | inl hit ↦ rw (h.0, hit)
    | inr miss ↦ rw (h.0, miss, advance-skip fuel f x xs h.1 lt)
  ]

  -- A loop over a filtered cache that is not empty visits exactly the objects that match the filter,
  -- each once and in the order of the cache.
  pub visit-matching :
      (x : ℕ) (xs : List ℕ) (f blank fuel : ℕ)
      → Chain c.first (x ∷ xs)
      → length (x ∷ xs) < fuel
      → (filtered_begin c fuel (some f) >>= visit c fuel fuel (filtered_end c blank))
        ≡ value (map some (matching f (x ∷ xs)))
  unfolding filtered_end
  visit-matching x xs f blank fuel h lt =
      ap (λ o. o >>= visit c fuel fuel (iterator_at c blank none))
        (filtered_begin-skip x xs f fuel h (omega arith))
      ∙ visit-skip (x ∷ xs) c.first fuel fuel (iterator_at c blank none) f h refl lt lt

  -- To filter an empty cache hands a null pointer to `nl_object_match_filter`, whatever the
  -- filter.
  filtered_begin-empty :
      (f fuel : ℕ) → Chain c.first [] → filtered_begin c fuel (some f) ≡ null_passed
  unfolding filtered_begin
  filtered_begin-empty f fuel h = rw h

  pub visit_filtered-empty :
      (f blank fuel : ℕ) → Chain c.first [] → visit_filtered c fuel f blank ≡ null_passed
  visit_filtered-empty f blank fuel h =
      ap (λ o. o >>= visit c fuel fuel (filtered_end c blank)) (filtered_begin-empty f fuel h)

  -- The two increments agree: the postfix one returns the iterator as it was, and leaves what the
  -- prefix one makes of it.
  post_increment-increment :
      (fuel : ℕ) (it : Iterator)
      → post_increment c fuel it ≡ (increment c fuel it >>= λ next. value (it, next))
  unfolding post_increment increment
  post_increment-increment fuel it = ground arith
