-- ===== src/Objects/Handle/Life.antt =====
-- Each operation on such objects is defined, changes the objects as it says, and keeps every
-- reference accounted for.
use Prim.Native.String.{String}
use nlcpp.Common.{
  ℕ, ◌<◌, ◌≡◌, ◌≢◌, refl, false, none, some, [], ◌∷◌, ◌++◌, arith, ◌==◌, if◌then◌else◌, length, set,
  get_elem?-set_ne, set-append, ap, ◌∙◌,
}
use nlcpp.Common.Run.{ok, Ends, returns, raises, runtime_error, throw}
use nlcpp.Objects.Defs.{
  Ptr, Libnl, IsFresh, IsAllocator, IsCounted, World, is_null, set_member, construct, end_lifetime,
  call_alloc,
}
use nlcpp.Objects.Rules.{
  Owned, ◌with◌, IsLive, Alive, member_lem, call_put-ok, call_get-ok, call_clone-ok, Owned-Alive,
  call_put-Owned, call_get-Owned, fresh-Owned, construct-Owned, end_lifetime-Owned,
}
use nlcpp.Objects.Counting.{holders, holders-append, holders-set, holders-one}
use nlcpp.Objects.Handle.{
  alloc_object, clone_object, share_object, move_object, move_assign_object, destroy_object,
}

-- A new object, that points to `p`, stands behind the others.
abbrev pub Constructed : {l : Libnl} → (ℕ → ℕ) → World l → Ptr → ℕ → World l → Type 0
Constructed ext w p this v =
    (this ≡ length w.objects) × (v.objects ≡ w.objects ++ (some p ∷ [])) × Owned ext v

-- A new object that points to a fresh object of libnl.
abbrev pub Allocated : {l : Libnl} → (ℕ → ℕ) → World l → ℕ → World l → Type 0
Allocated {l} ext w this v =
    (p : ℕ) × (l.refs w.store p ≡ 0) × (l.refs v.store p ≡ 1) × Constructed ext w (some p) this v

-- The operation changed no object.
abbrev pub Refused : {l : Libnl} → (ℕ → ℕ) → World l → World l → Type 0
Refused ext w v = (v.objects ≡ w.objects) × Owned ext v

module _ {l : Libnl} (c : IsAllocator l) (ext : ℕ → ℕ) (w : World l) where
  destroy_object_lem :
      (this : ℕ) (p : Ptr)
      → IsLive w this p
      → Owned ext w
      → destroy_object this w
        ≡ ok tt (record { objects = set w.objects this none; store = l.put p w.store })
  unfolding destroy_object end_lifetime
  destroy_object_lem this p h o =
      rw (member_lem w this p h, call_put-ok w p (Owned-Alive w ext this p h o))

  destroy_object-Owned :
      (this : ℕ) (p : Ptr)
      → IsLive w this p
      → Owned ext w
      → Owned ext (record w { objects = set w.objects this none; store = l.put p w.store })
  destroy_object-Owned this p h o =
      call_put-Owned c ext (record w { objects = set w.objects this none }) p
        (end_lifetime-Owned c ext w this p h o)

  -- The caller's own reference passes to the object.
  pub construct-ok :
      (p : Ptr) → Owned (ext with p) w → Ends (Constructed ext w p) (λ _ _. ⊥) (construct p w)
  unfolding construct
  construct-ok p o = returns (refl, refl, construct-Owned c ext w p o)

  -- What an allocation gave becomes an object, or is reported.
  store_fresh :
      (msg : String) (r : Ptr × l.Store)
      → IsFresh l w.store r
      → Owned ext w
      → Ends
          (Allocated ext w)
          (λ e v. (e ≡ runtime_error msg) × Refused ext w v)
          ((if is_null r.0 then throw (runtime_error msg) else construct r.0)
            (record w { store = r.1 }))
  unfolding construct
  store_fresh msg (none, t) f o = raises (refl, (refl, λ q. omega (arith, f q, o q)))
  store_fresh msg (some p, t) f o = returns (
    p,
    f.0,
    ground (arith, f.1 p),
    (
      refl,
      refl,
      construct-Owned c ext (record w { store = t }) (some p) (fresh-Owned c ext w (some p, t) f o),
    ),
  )

  pub alloc_object-ok :
      (msg : String)
      → Owned ext w
      → Ends
          (Allocated ext w)
          (λ e v. (e ≡ runtime_error msg) × Refused ext w v)
          (alloc_object msg w)
  unfolding alloc_object call_alloc
  alloc_object-ok msg o = store_fresh msg (l.alloc w.store) (c.alloc_fresh w.store) o

  pub clone_object-ok :
      (msg : String) (p : ℕ)
      → 0 < l.refs w.store p
      → Owned ext w
      → Ends
          (Allocated ext w)
          (λ e v. (e ≡ runtime_error msg) × Refused ext w v)
          (clone_object msg (some p) w)
  unfolding clone_object
  clone_object-ok msg p h o =
      rw (call_clone-ok w p h) (store_fresh msg (l.clone p w.store) (c.clone_fresh p w.store h) o)

  pub move_object-ok :
      (other : ℕ) (p : Ptr)
      → IsLive w other p
      → Owned ext w
      → Ends
          (λ this v.
            (this ≡ length w.objects)
            × (v.objects ≡ set w.objects other (some none) ++ (some p ∷ []))
            × (v.store ≡ w.store)
            × Owned ext v)
          (λ _ _. ⊥)
          (move_object other w)
  unfolding move_object construct set_member
  move_object-ok other p h o = rw (member_lem w other p h) (
      returns (
        refl,
        set-append w.objects other (some none) (some p ∷ []) (some p) h,
        refl,
        λ q. omega (
          arith,
          o q,
          ap (holders q) (set-append w.objects other (some none) (some p ∷ []) (some p) h),
          holders-append q (set w.objects other (some none)) (some p ∷ []),
          holders-set q w.objects other (some p) (some none) h,
          holders-one q (some p),
        ),
      ))

  pub move_assign_object_self : (this : ℕ) → move_assign_object this this w ≡ ok this w
  unfolding move_assign_object
  move_assign_object_self this = ground arith

  pub move_assign_object-ok :
      (this other : ℕ) (p q : Ptr)
      → IsLive w this p
      → IsLive w other q
      → this ≢ other
      → Owned ext w
      → Ends
          (λ r v.
            (r ≡ this)
            × (v.objects ≡ set (set w.objects this (some q)) other (some none))
            × (v.store ≡ l.put p w.store)
            × Owned ext v)
          (λ _ _. ⊥)
          (move_assign_object this other w)
  unfolding move_assign_object set_member
  move_assign_object-ok this other p q hp hq ne o =
      let ne' : (this == other) ≡ false = ground arith in
      let hq' : IsLive (record w { store = l.put p w.store }) other q = hq in
      rw
        (
          ne',
          member_lem w this p hp,
          call_put-ok w p (Owned-Alive w ext this p hp o),
          member_lem (record w { store = l.put p w.store }) other q hq',
        )
        (returns (
          refl,
          refl,
          refl,
          call_put-Owned c ext
              (record w { objects = set (set w.objects this (some q)) other (some none) }) p
              λ x. omega (
                arith,
                o x,
                holders-set x w.objects this (some p) (some q) hp,
                holders-set x (set w.objects this (some q)) other (some q) (some none)
                    (get_elem?-set_ne w.objects this other (some q) ne ∙ hq),
              ),
        ))

  pub destroy_object-ok :
      (this : ℕ) (p : Ptr)
      → IsLive w this p
      → Owned ext w
      → Ends
          (λ _ v. (v.objects ≡ set w.objects this none) × (v.store ≡ l.put p w.store) × Owned ext v)
          (λ _ _. ⊥)
          (destroy_object this w)
  destroy_object-ok this p h o =
      rw (destroy_object_lem this p h o) (returns (refl, refl, destroy_object-Owned this p h o))

module _ {l : Libnl} (c : IsCounted l) (ext : ℕ → ℕ) (w : World l) where
  pub share_object-ok :
      (p : Ptr) → Alive w p → Owned ext w → Ends (Constructed ext w p) (λ _ _. ⊥) (share_object p w)
  unfolding share_object construct
  share_object-ok none h o =
      returns (refl, refl, construct-Owned c.allocator ext w none (λ q. omega (arith, o q)))
  share_object-ok (some p) h o = rw (call_get-ok w p h) (
      returns (
        refl,
        refl,
        construct-Owned c.allocator ext (record w { store = l.get p w.store }) (some p)
            (call_get-Owned c ext w p h o),
      ))
