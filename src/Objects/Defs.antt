-- ===== src/Objects/Defs.antt =====
-- The C++ objects of one wrapper class, each with one pointer to an object of libnl, beside libnl's
-- own store of reference-counted objects. The functions of libnl are parameters.
use nlcpp.Common.{
  ℕ, ◌+◌, ◌-◌, ◌<◌, ◌≡◌, Bool, true, false, Option, none, some, List, [], ◌∷◌, ◌++◌, ◌==◌,
  if◌then◌else◌, length, get_elem?, set,
}
use nlcpp.Common.Run.{M, ok, fault}

-- A pointer to an object of libnl; `none` is a null pointer.
abbrev pub Ptr : Type 0
Ptr = Option ℕ

-- The functions of libnl on one type of objects: `x_alloc`, `x_clone`, `x_get`, `x_put`.
-- `refs` is the reference count, 0 where no object is allocated.
pub record Libnl : Type 1 where
  pub Store : Type 0
  pub refs : Store → ℕ → ℕ
  pub alloc : Store → Ptr × Store
  pub clone : ℕ → Store → Ptr × Store
  pub get : ℕ → Store → Store
  pub put : Ptr → Store → Store

-- What an allocation returns: null and no change, or a fresh object with one reference.
abbrev pub IsFresh : (l : Libnl) → l.Store → Ptr × l.Store → Type 0
IsFresh l s (none, t) = (q : ℕ) → l.refs t q ≡ l.refs s q
IsFresh l s (some p, t) =
    (l.refs s p ≡ 0) × ((q : ℕ) → l.refs t q ≡ (if p == q then 1 else l.refs s q))

-- The documented behaviour of the functions that allocate and release.
pub record IsAllocator (l : Libnl) : Type 0 where
  pub alloc_fresh : (s : l.Store) → IsFresh l s (l.alloc s)
  pub clone_fresh : (p : ℕ) (s : l.Store) → 0 < l.refs s p → IsFresh l s (l.clone p s)
  pub put_refs :
      (p q : ℕ) (s : l.Store)
      → 0 < l.refs s p
      → l.refs (l.put (some p) s) q ≡ (if p == q then l.refs s q - 1 else l.refs s q)
  pub put_null : (q : ℕ) (s : l.Store) → l.refs (l.put none s) q ≡ l.refs s q

-- The same for objects that may be shared.
pub record IsCounted (l : Libnl) : Type 0 where
  pub allocator : IsAllocator l
  pub get_refs :
      (p q : ℕ) (s : l.Store)
      → 0 < l.refs s p
      → l.refs (l.get p s) q ≡ (if p == q then l.refs s q + 1 else l.refs s q)

-- Objects are known by the place where they were constructed. A place holds the object's pointer
-- member, or `none` once the object's lifetime has ended.
pub record World (l : Libnl) : Type 0 where
  pub objects : List (Option Ptr)
  pub store : l.Store

abbrev pub is_null : Ptr → Bool
is_null none = true
is_null (some p) = false

module _ {l : Libnl} where
  -- The pointer member of the object at `this`.
  unfoldable pub member : ℕ → M (World l) Ptr
  member this w = elim (get_elem? w.objects this) [
    | none ↦ fault
    | some o ↦ elim o [ none ↦ fault | some p ↦ ok p w ]
  ]

  unfoldable pub set_member : ℕ → Ptr → M (World l) (Unit {0})
  set_member this p w = ok tt (record w { objects = set w.objects this (some p) })

  -- A new object with the given pointer member; the result says where.
  unfoldable pub construct : Ptr → M (World l) ℕ
  construct p w = ok (length w.objects) (record w { objects = w.objects ++ (some p ∷ []) })

  unfoldable pub end_lifetime : ℕ → M (World l) (Unit {0})
  end_lifetime this w = ok tt (record w { objects = set w.objects this none })

  unfoldable pub call_alloc : M (World l) Ptr
  call_alloc w = ok (l.alloc w.store).0 (record w { store = (l.alloc w.store).1 })

  -- To hand libnl a null pointer or one to a freed object is undefined, but for `x_put`, which
  -- accepts null.
  unfoldable pub call_clone : Ptr → M (World l) Ptr
  call_clone none w = fault
  call_clone (some p) w =
      if l.refs w.store p == 0
      then fault
      else ok (l.clone p w.store).0 (record w { store = (l.clone p w.store).1 })

  unfoldable pub call_get : Ptr → M (World l) (Unit {0})
  call_get none w = fault
  call_get (some p) w =
      if l.refs w.store p == 0 then fault else ok tt (record w { store = l.get p w.store })

  unfoldable pub call_put : Ptr → M (World l) (Unit {0})
  call_put none w = ok tt (record w { store = l.put none w.store })
  call_put (some p) w =
      if l.refs w.store p == 0 then fault else ok tt (record w { store = l.put (some p) w.store })
