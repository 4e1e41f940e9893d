-- ===== src/Route/TypedCache/Iterators.antt =====
-- The iterators of TypedCache of src/route.cpp as objects: their members `obj` and `filter` are objects of
-- the wrapper class, with references of their own. The class is known by its special member functions,
-- and the cache does not change while a loop runs over it.
pub mod Steps
pub mod Balance
pub mod Pairs
pub mod Loops
pub mod Postfix
use nlcpp.Common.{ℕ, zero, suc, Bool, true, false, not, none, some, List, [], ◌∷◌}
use nlcpp.Common.Run.{M, undefined, throw, pure, ◌>>=◌, ◌>>◌, attempt}
use nlcpp.Objects.Defs.{Ptr, Libnl, World, member}
use nlcpp.Objects.Class.{Class}
use nlcpp.Objects.Class.Effects.{replace_member}
use nlcpp.Route.TypedCache.{
  NlCache, Outcome, value, null_passed, unfinished, ptr_eq, match_filter, advance,
}

-- An Iterator: the places of its two members.
pub record IteratorObject : Type 0 where
  pub obj : ℕ
  pub filter : ℕ

module _ {l : Libnl} (k : Class l) (c : NlCache) where
  -- What libnl finds in the cache; a loop with no end within the fuel counts as undefined.
  unfoldable pub found {ℓ} : {A : Type ℓ} → Outcome A → M (World l) A
  found (value a) = pure a
  found null_passed = undefined
  found unfinished = undefined

  -- Iterator(nl_object *): the filter is default constructed, and `obj` is destroyed if that throws.
  unfoldable pub iterator_make : Ptr → M (World l) IteratorObject
  iterator_make obj_ = do
    obj ← k.share_ownership obj_
    filter ← λ w. attempt (k.make w) pure (λ x. k.destroy obj >> throw x)
    pure (record { obj = obj; filter = filter })

  -- operator++()
  unfoldable pub iterator_increment : (fuel : ℕ) → IteratorObject → M (World l) (Unit {0})
  unfolding member found advance replace_member
  iterator_increment fuel it = do
    next ← member it.obj
    raw_filter ← member it.filter
    next' ← found (advance c fuel raw_filter next)
    replace_member k it.obj next'

  -- `if (not nl_object_match_filter(obj_, filter_)) ++(*this);`
  unfoldable pub skip_mismatch : (fuel : ℕ) → IteratorObject → Bool → M (World l) (Unit {0})
  unfolding iterator_increment
  skip_mismatch fuel it true = pure tt
  skip_mismatch fuel it false = iterator_increment fuel it

  -- Iterator(nl_object *, nl_object *)
  unfoldable pub iterator_make_filtered : (fuel : ℕ) → Ptr → Ptr → M (World l) IteratorObject
  unfolding found match_filter skip_mismatch
  iterator_make_filtered fuel obj_ filter_ = do
    obj ← k.share_ownership obj_
    filter ← k.share_ownership filter_
    matched ← found (match_filter c obj_ filter_)
    skip_mismatch fuel (record { obj = obj; filter = filter }) matched
    pure (record { obj = obj; filter = filter })

  -- operator++(int): the iterator `tmp` takes over both members, which then get new pointers.
  unfoldable pub iterator_post_increment : (fuel : ℕ) → IteratorObject → M (World l) IteratorObject
  unfolding member found advance replace_member
  iterator_post_increment fuel it = do
    next ← member it.obj
    raw_filter ← member it.filter
    next' ← found (advance c fuel raw_filter next)
    tmp_obj ← k.move it.obj
    tmp_filter ← k.move it.filter
    replace_member k it.obj next'
    replace_member k it.filter raw_filter
    pure (record { obj = tmp_obj; filter = tmp_filter })

  -- ~Iterator()
  unfoldable pub iterator_destroy : IteratorObject → M (World l) (Unit {0})
  iterator_destroy it = do k.destroy it.filter; k.destroy it.obj

  -- operator!=
  unfoldable pub iterator_differs : IteratorObject → IteratorObject → M (World l) Bool
  unfolding member
  iterator_differs it other = do p ← member it.obj; q ← member other.obj; pure (not (ptr_eq p q))

  -- operator* and operator->, of whose object the pointer is read
  unfoldable pub iterator_deref : IteratorObject → M (World l) Ptr
  unfolding member
  iterator_deref it = member it.obj

  -- One round of a range-based loop, if there is one, and the others.
  unfoldable pub next_round :
      (inner : ℕ) → IteratorObject → M (World l) (List Ptr) → Bool → M (World l) (List Ptr)
  unfolding iterator_deref iterator_increment
  next_round inner it others false = pure []
  next_round inner it others true = do
    item ← iterator_deref it
    iterator_increment inner it
    items ← others
    pure (item ∷ items)

  -- The rounds of a range-based loop: the objects that its body is run for.
  unfoldable pub rounds : (inner fuel : ℕ) → (end it : IteratorObject) → M (World l) (List Ptr)
  unfolding iterator_differs next_round
  rounds inner zero end it = undefined
  rounds inner (suc fuel) end it = do
    more ← iterator_differs it end
    next_round inner it (rounds inner fuel end it) more

  -- A range-based loop, whose two iterators are made, and destroyed at its end or where the second one
  -- is not made.
  unfoldable pub range_loop :
      (inner fuel : ℕ) → (begin end : M (World l) IteratorObject) → M (World l) (List Ptr)
  unfolding rounds iterator_destroy
  range_loop inner fuel begin end = do
    it ← begin
    last ← λ w. attempt (end w) pure (λ x. iterator_destroy it >> throw x)
    items ← rounds inner fuel last it
    iterator_destroy last
    iterator_destroy it
    pure items

  -- begin() and end(), and the loop over a cache
  unfoldable pub loop_over_cache : (fuel : ℕ) → M (World l) (List Ptr)
  unfolding range_loop iterator_make
  loop_over_cache fuel = range_loop fuel fuel (iterator_make c.first) (iterator_make none)

  -- Filtered::begin, from the pointer of the member `filter`
  unfoldable pub begin_filtered : (fuel : ℕ) → (filter : ℕ) → M (World l) IteratorObject
  unfolding member iterator_make_filtered
  begin_filtered fuel filter = do
    raw_filter ← member filter
    iterator_make_filtered fuel c.first raw_filter

  -- The loop over a Filtered, whose filter is the object at `filter`
  unfoldable pub loop_over_filtered : (fuel : ℕ) → (filter : ℕ) → M (World l) (List Ptr)
  unfolding range_loop begin_filtered iterator_make
  loop_over_filtered fuel filter =
      range_loop fuel fuel (begin_filtered fuel filter) (iterator_make none)

  -- filter(T &&): the member `filter` of the Filtered takes over the argument
  unfoldable pub filtered_make : (filter : ℕ) → M (World l) ℕ
  filtered_make filter = k.move filter
