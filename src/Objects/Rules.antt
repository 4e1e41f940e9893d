-- ===== src/Objects/Rules.antt =====
-- Who owns the references: each reference to an object of libnl belongs to a live C++ object or to
-- somebody else, whose share is counted apart.
use nlcpp.Common.{ℕ, ◌+◌, ◌<◌, ◌≡◌, refl, none, some, [], ◌∷◌, ◌++◌, arith, get_elem?, set}
use nlcpp.Common.Run.{ok}
use nlcpp.Objects.Defs.{
  Ptr, Libnl, IsFresh, IsAllocator, IsCounted, World, member, call_clone, call_get, call_put,
}
use nlcpp.Objects.Counting.{held, holders, holders-append, holders-set}

abbrev pub Owned : {l : Libnl} → (ℕ → ℕ) → World l → Type 0
Owned {l} ext w = (q : ℕ) → l.refs w.store q ≡ holders q w.objects + ext q

-- The references of `ext` and the one that the pointer stands for.
infixl 65 ◌with◌
abbrev pub ◌with◌ : (ℕ → ℕ) → Ptr → ℕ → ℕ
◌with◌ ext p q = held p q + ext q

abbrev pub IsLive : {l : Libnl} → World l → ℕ → Ptr → Type 0
IsLive w this p = get_elem? w.objects this ≡ some (some p)

-- The pointer is null or its object is allocated.
abbrev pub Alive : {l : Libnl} → World l → Ptr → Type 0
Alive w none = Unit {0}
Alive {l} w (some p) = 0 < l.refs w.store p

module _ {l : Libnl} (w : World l) where
  pub member_lem : (this : ℕ) (p : Ptr) → IsLive w this p → member this w ≡ ok p w
  unfolding member
  member_lem this p h = rw (h, member)

  pub call_put-ok :
      (p : Ptr) → Alive w p → call_put p w ≡ ok tt (record w { store = l.put p w.store })
  unfolding call_put
  call_put-ok none h = refl
  call_put-ok (some p) h = ground arith

  pub call_get-ok :
      (p : ℕ)
      → 0 < l.refs w.store p
      → call_get (some p) w ≡ ok tt (record w { store = l.get p w.store })
  unfolding call_get
  call_get-ok p h = ground arith

  pub call_clone-ok :
      (p : ℕ)
      → 0 < l.refs w.store p
      → call_clone (some p) w
        ≡ ok (l.clone p w.store).0 (record w { store = (l.clone p w.store).1 })
  unfolding call_clone
  call_clone-ok p h = ground arith

  pub Owned-Alive : (ext : ℕ → ℕ) (this : ℕ) (p : Ptr) → IsLive w this p → Owned ext w → Alive w p
  Owned-Alive ext this none h o = tt
  Owned-Alive ext this (some p) h o =
      ground (arith, o p, holders-set p w.objects this (some (some p)) none h)

module _ {l : Libnl} (c : IsAllocator l) (ext : ℕ → ℕ) (w : World l) where
  pub call_put-Owned :
      (p : Ptr) → Owned (ext with p) w → Owned ext (record w { store = l.put p w.store })
  call_put-Owned none o q = omega (arith, c.put_null q w.store, o q)
  call_put-Owned (some p) o q = ground (arith, c.put_refs p q w.store, o q, o p)

  pub fresh-Owned :
      (r : Ptr × l.Store)
      → IsFresh l w.store r
      → Owned ext w
      → Owned (ext with r.0) (record w { store = r.1 })
  fresh-Owned (none, t) f o q = omega (arith, f q, o q)
  fresh-Owned (some p, t) f o q = ground (arith, f.0, f.1 q, o q, o p)

  pub construct-Owned :
      (p : Ptr)
      → Owned (ext with p) w
      → Owned ext (record w { objects = w.objects ++ (some p ∷ []) })
  unfolding holders
  construct-Owned p o q = omega (arith, o q, holders-append q w.objects (some p ∷ []))

  pub set_member-Owned :
      (this : ℕ) (old p : Ptr)
      → IsLive w this old
      → Owned (ext with p) w
      → Owned (ext with old) (record w { objects = set w.objects this (some p) })
  set_member-Owned this old p h o q =
      omega (arith, o q, holders-set q w.objects this (some old) (some p) h)

  pub end_lifetime-Owned :
      (this : ℕ) (old : Ptr)
      → IsLive w this old
      → Owned ext w
      → Owned (ext with old) (record w { objects = set w.objects this none })
  end_lifetime-Owned this old h o q =
      omega (arith, o q, holders-set q w.objects this (some old) none h)

module _ {l : Libnl} (c : IsCounted l) (ext : ℕ → ℕ) (w : World l) where
  pub call_get-Owned :
      (p : ℕ)
      → 0 < l.refs w.store p
      → Owned ext w
      → Owned (ext with some p) (record w { store = l.get p w.store })
  call_get-Owned p h o q = ground (arith, c.get_refs p q w.store h, o q)
