-- ===== src/Objects/Handle/Replace.antt =====
-- An object gives up its pointer for a clone of another object's.
use nlcpp.Common.{ℕ, ◌≡◌, ◌≢◌, none, some, arith, set, get_elem?-set_ne, ◌∙◌}
use nlcpp.Objects.Defs.{Ptr, Libnl, IsFresh, IsAllocator, World}
use nlcpp.Objects.Counting.{holders-set}
use nlcpp.Objects.Rules.{
  Owned, IsLive, Alive, Owned-Alive, call_put-Owned, fresh-Owned, set_member-Owned,
}

module _ {l : Libnl} (c : IsAllocator l) (ext : ℕ → ℕ) (w : World l) (this : ℕ) (p : Ptr)
    (hp : IsLive w this p) where
  -- Without its pointer the object owns nothing.
  pub released :
      Owned ext w
      → Owned ext (record w { objects = set w.objects this (some none); store = l.put p w.store })
  released o =
      call_put-Owned c ext (record w { objects = set w.objects this (some none) }) p
        (set_member-Owned c ext w this p none hp (λ q. omega (arith, o q)))

  pub released_null :
      p ≡ none → Owned ext w → Owned ext (record w { objects = set w.objects this (some none) })
  released_null e o q = ground (arith, o q, holders-set q w.objects this (some p) (some none) hp)

  -- After the release another object's pointer is still good.
  pub other-Alive :
      (s : l.Store) (other : ℕ) (q : Ptr)
      → IsLive w other q
      → this ≢ other
      → Owned ext (record w { objects = set w.objects this (some none); store = s })
      → Alive (record w { store = s }) q
  other-Alive s other none hq ne o = tt
  other-Alive s other (some q) hq ne o =
      Owned-Alive (record w { objects = set w.objects this (some none); store = s }) ext other
        (some q) (get_elem?-set_ne w.objects this other (some none) ne ∙ hq) o

  pub replaced :
      (s : l.Store) (r : Ptr × l.Store)
      → IsFresh l s r
      → Owned ext (record w { objects = set w.objects this (some none); store = s })
      → Owned ext (record w { objects = set w.objects this (some r.0); store = r.1 })
  replaced s r f o x = omega (
    arith,
    fresh-Owned c ext (record w { objects = set w.objects this (some none); store = s }) r f o x,
    holders-set x w.objects this (some p) (some none) hp,
    holders-set x w.objects this (some p) (some r.0) hp,
  )
