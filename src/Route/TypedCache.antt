-- ===== src/Route/TypedCache.antt =====
-- TypedCache and its iterators, of src/route.cpp. An object of the cache is known by its pointer. The
-- order of the cache and the match of objects with filters are parameters; the reference counts of
-- the iterator's two members are those of their classes.
pub mod Iteration
pub mod Iterators
use nlcpp.Common.{
  ℕ, zero, suc, ◌==◌, Bool, true, false, not, ◌&&◌, ◌||◌, Option, none, some, List, [], ◌∷◌,
  if◌then◌else◌,
}
use nlcpp.Objects.Defs.{Ptr, is_null}

-- nl_cache_get_first, nl_cache_get_next and nl_object_match_filter, on a cache that does not change.
pub record NlCache : Type 0 where
  pub first : Ptr
  pub next : ℕ → Ptr
  pub matches : ℕ → ℕ → Bool

-- What a loop over a cache comes to: a value, a null pointer handed to libnl, or no end within the
-- fuel.
pub data Outcome {ℓ} (A : Type ℓ) : Type ℓ where
  value : A → Outcome A
  null_passed : Outcome A
  unfinished : Outcome A

infixl 5 ◌>>=◌
abbrev pub ◌>>=◌ {ℓ κ} : {A : Type ℓ} {B : Type κ} → Outcome A → (A → Outcome B) → Outcome B
value a >>= f = f a
null_passed >>= f = null_passed
unfinished >>= f = unfinished

-- The members `obj` and `filter`, as the pointers of the two objects.
pub record Iterator : Type 0 where
  pub obj : Ptr
  pub filter : Ptr

abbrev pub ptr_eq : Ptr → Ptr → Bool
ptr_eq none none = true
ptr_eq none (some q) = false
ptr_eq (some p) none = false
ptr_eq (some p) (some q) = p == q

module _ (c : NlCache) where
  unfoldable pub get_next : Ptr → Outcome Ptr
  get_next none = null_passed
  get_next (some p) = value (c.next p)

  unfoldable pub match_filter : Ptr → Ptr → Outcome Bool
  match_filter none filter = null_passed
  match_filter (some p) none = null_passed
  match_filter (some p) (some f) = value (c.matches p f)

  -- `next && raw_filter && not nl_object_match_filter(next, raw_filter)`
  unfoldable pub goes_on : Ptr → Ptr → Bool
  goes_on none filter = false
  goes_on (some p) none = false
  goes_on (some p) (some f) = not (c.matches p f)

  -- The `do ... while` loop of both increments.
  unfoldable pub advance : (fuel : ℕ) → (filter next : Ptr) → Outcome Ptr
  unfolding get_next goes_on
  advance zero filter next = unfinished
  advance (suc fuel) filter next = do
    next' ← get_next next
    let rest = advance fuel filter next'
    if goes_on next' filter then rest else value next'

  -- Iterator & operator++()
  unfoldable pub increment : (fuel : ℕ) → Iterator → Outcome Iterator
  unfolding advance
  increment fuel it = do next ← advance fuel it.filter it.obj; value (record it { obj = next })

  -- Iterator operator++(int): what it returns, and the iterator after it
  unfoldable pub post_increment : (fuel : ℕ) → Iterator → Outcome (Iterator × Iterator)
  unfolding advance
  post_increment fuel it = do
    next ← advance fuel it.filter it.obj
    value (it, record { obj = next; filter = it.filter })

  -- Iterator(nl_object *): the filter is default constructed, so it is the object `blank` that its
  -- constructor allocated.
  unfoldable pub iterator_at : (blank : ℕ) → Ptr → Iterator
  iterator_at blank obj = record { obj = obj; filter = some blank }

  -- Iterator(nl_object *, nl_object *)
  unfoldable pub filtered_iterator_at : (fuel : ℕ) → (obj filter : Ptr) → Outcome Iterator
  unfolding match_filter increment
  filtered_iterator_at fuel obj filter = do
    matched ← match_filter obj filter
    let it : Iterator = record { obj = obj; filter = filter }
    let moved = increment fuel it
    if not matched then moved else value it

  -- bool operator==(const Iterator &) const
  unfoldable pub equals : Iterator → Iterator → Bool
  equals a b = ptr_eq a.obj b.obj

  -- bool operator!=(const Iterator &) const
  unfoldable pub differs : Iterator → Iterator → Bool
  differs a b = not (ptr_eq a.obj b.obj)

  -- TypedCache::begin and end
  unfoldable pub cache_begin : (blank : ℕ) → Iterator
  unfolding iterator_at
  cache_begin blank = iterator_at blank c.first

  unfoldable pub cache_end : (blank : ℕ) → Iterator
  unfolding iterator_at
  cache_end blank = iterator_at blank none

  -- TypedCache::Filtered::begin
  unfoldable pub filtered_begin : (fuel : ℕ) → (filter : Ptr) → Outcome Iterator
  unfolding filtered_iterator_at
  filtered_begin fuel filter = filtered_iterator_at fuel c.first filter

  -- TypedCache::Filtered::end
  unfoldable pub filtered_end : (blank : ℕ) → Iterator
  unfolding iterator_at
  filtered_end blank = iterator_at blank none

  -- `for (const auto & x : cache)`: the objects that the body is run for. Each increment has the
  -- fuel `inner`.
  unfoldable pub visit : (inner fuel : ℕ) → (end it : Iterator) → Outcome (List Ptr)
  unfolding differs increment
  visit inner zero end it = unfinished
  visit inner (suc fuel) end it =
      let rest = (do
        next ← increment inner it
        seen ← visit inner fuel end next
        value (it.obj ∷ seen)) in
      if differs it end then rest else value []

  -- The same for `cache.filter(...)`.
  abbrev pub visit_filtered : (fuel : ℕ) → (filter blank : ℕ) → Outcome (List Ptr)
  visit_filtered fuel filter blank =
      filtered_begin fuel (some filter) >>= visit fuel fuel (filtered_end blank)
