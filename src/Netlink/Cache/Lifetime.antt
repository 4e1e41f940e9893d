-- ===== src/Netlink/Cache/Lifetime.antt =====
-- Objects of Cache keep the reference counts of their `nl_cache` right.
use nlcpp.Common.{ℕ, ◌<◌, ◌≡◌, ◌≢◌, refl, false, none, some, [], ◌∷◌, ◌++◌, arith, ◌==◌, set}
use nlcpp.Common.Run.{Ends, returns, fault}
use nlcpp.Objects.Defs.{Ptr, Libnl, IsCounted, World}
use nlcpp.Objects.Counting.{holders-set}
use nlcpp.Objects.Rules.{
  Owned, IsLive, member_lem, call_put-ok, call_get-ok, Owned-Alive, call_get-Owned, construct-Owned,
}
use nlcpp.Objects.Handle.{move_object, move_assign_object, destroy_object}
use nlcpp.Objects.Handle.Life.{Constructed}
use nlcpp.Objects.Class.{IsMoving}
use nlcpp.Objects.Class.Standard.{object-IsMoving}
use nlcpp.Objects.Handle.Replace.{released, other-Alive}
use nlcpp.Netlink.Cache.{
  cache_share, cache_copy, cache_copy_assign, cache_move, cache_move_assign, cache_destroy,
}

module _ {l : Libnl} (c : IsCounted l) (ext : ℕ → ℕ) (w : World l) where
  -- Sharing the pointer of an allocated cache gives a new object with a reference of its own.
  cache_share-Constructed :
      (p : ℕ)
      → 0 < l.refs w.store p
      → Owned ext w
      → Ends (Constructed ext w (some p)) (λ _ _. ⊥) (cache_share (some p) w)
  unfolding cache_share
  cache_share-Constructed p h o =
      rw (call_get-ok (record w { objects = w.objects ++ (some (some p) ∷ []) }) p h) (
        returns (
          refl,
          refl,
          construct-Owned c.allocator ext (record w { store = l.get p w.store }) (some p)
              (call_get-Owned c ext w p h o),
        ))

  -- A copy of a cache that holds one is a new object with a reference of its own to the same
  -- `nl_cache`.
  cache_copy-Constructed :
      (other p : ℕ)
      → IsLive w other (some p)
      → Owned ext w
      → Ends (Constructed ext w (some p)) (λ _ _. ⊥) (cache_copy other w)
  unfolding cache_copy cache_share
  cache_copy-Constructed other p h o =
      rw (member_lem w other (some p) h)
        (cache_share-Constructed p (Owned-Alive w ext other (some p) h o) o)

  -- To copy a cache that was moved from is undefined.
  cache_copy-moved_from : (other : ℕ) → IsLive w other none → cache_copy other w ≡ fault
  unfolding cache_copy
  cache_copy-moved_from other h = rw (member_lem w other none h)

  -- Copy assignment drops the target's own reference and takes one of the other's `nl_cache`, also
  -- where both are the same `nl_cache`; it changes no other object.
  pub cache_copy_assign-Owned :
      (this other : ℕ) (p : Ptr) (q : ℕ)
      → IsLive w this p
      → IsLive w other (some q)
      → this ≢ other
      → Owned ext w
      → Ends
          (λ r v.
            (r ≡ this)
            × (v.objects ≡ set w.objects this (some (some q)))
            × (v.store ≡ l.get q (l.put p w.store))
            × Owned ext v)
          (λ _ _. ⊥)
          (cache_copy_assign this other w)
  unfolding cache_copy_assign
  cache_copy_assign-Owned this other p q hp hq ne o =
      let ne' : (this == other) ≡ false = ground arith in
      let s = l.put p w.store in
      let o' = released c.allocator ext w this p hp o in
      let alive : 0 < l.refs s q =
        other-Alive c.allocator ext w this p hp s other (some q) hq ne o' in
      rw
        (
          ne',
          member_lem w this p hp,
          call_put-ok w p (Owned-Alive w ext this p hp o),
          member_lem (record w { store = s }) other (some q) hq,
          call_get-ok (record w { objects = set w.objects this (some (some q)); store = s }) q
              alive,
        )
        (returns (
          refl,
          refl,
          refl,
          λ x. omega (
            arith,
            call_get-Owned c ext (record w { objects = set w.objects this (some none); store = s })
                q alive o' x,
            holders-set x w.objects this (some p) (some none) hp,
            holders-set x w.objects this (some p) (some (some q)) hp,
          ),
        ))

-- Moving an object of `Cache`, assigning to one by a move, also to itself, and destroying one are
-- defined on live objects, and each reference stays owned by one object or by the outside.
cache-IsMoving :
    (l : Libnl) → IsCounted l → IsMoving l l.put cache_move cache_move_assign cache_destroy
unfolding cache_move cache_move_assign cache_destroy move_object move_assign_object destroy_object
cache-IsMoving l c = object-IsMoving c.allocator
