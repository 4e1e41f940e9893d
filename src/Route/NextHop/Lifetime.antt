-- ===== src/Route/NextHop/Lifetime.antt =====
-- Objects of NextHop own their `rtnl_nexthop`: none is leaked, and none is freed twice.
use mathlib.Core.Path.{subst, fun_ext}
use nlcpp.Common.{
  ℕ, ◌<◌, ◌≡◌, refl, sym, ap, true, false, none, some, arith, ◌==◌, not, if◌then◌else◌,
}
use nlcpp.Common.Run.{Run, M, ◌>>=◌, ◌>>◌, Ends, runtime_error, when, pure}
use nlcpp.Objects.Defs.{
  Ptr, IsFresh, IsAllocator, is_null, member, call_put, set_member, end_lifetime,
}
use nlcpp.Objects.Rules.{Owned, IsLive, member_lem, Owned-Alive}
use nlcpp.Objects.Handle.{clone_object, move_object, move_assign_object, destroy_object}
use nlcpp.Objects.Handle.Life.{Allocated, Refused, clone_object-ok}
use nlcpp.Objects.Class.{IsMoving}
use nlcpp.Objects.Class.Standard.{object-IsMoving}
use nlcpp.Route.NextHop.{
  NextHopCalls, free_ptr, IsNew, IsNextHopCalls, next_hop_libnl, Hops, next_hop_clone,
  next_hop_copy, next_hop_move, next_hop_move_assign, next_hop_destroy,
}

module _ (n : NextHopCalls) where
  IsFresh-of_new : (s : n.Store) (r : Ptr × n.Store) → IsNew n s r → IsFresh (next_hop_libnl n) s r
  IsFresh-of_new s (none, t) h = λ q. rw (h q)
  IsFresh-of_new s (some p, t) h = (rw h.0, λ q. rw (h.1 q) (ground arith))

  allocated-pos :
      (s : n.Store) (p : ℕ) → 0 < (if n.allocated s p then 1 else 0) → n.allocated s p ≡ true
  allocated-pos s p h = ground arith

  hops-IsAllocator : IsNextHopCalls n → IsAllocator (next_hop_libnl n)
  hops-IsAllocator c = record {
    alloc_fresh = λ s. IsFresh-of_new s (n.alloc s) (c.alloc_new s);
    clone_fresh = λ p s h. IsFresh-of_new s (n.clone p s) (c.clone_new p s (allocated-pos s p h));
    put_refs = λ p q s h. rw (c.free_allocated p q s (allocated-pos s p h)) (ground arith);
    put_null = λ q s. refl;
  }

  pub not_allocated :
      (s : n.Store) (p : ℕ) → (next_hop_libnl n).refs s p ≡ 0 → n.allocated s p ≡ false
  not_allocated s p h = ground arith

  -- The test for null before a pointer is freed.
  free_if : (p : Ptr) → when (not (is_null p)) (call_put p) ≡ call_put {l = next_hop_libnl n} p
  unfolding call_put
  free_if none = refl
  free_if (some p) = refl

  same_destroy : next_hop_destroy {l = next_hop_libnl n} ≡ destroy_object
  unfolding next_hop_destroy destroy_object
  same_destroy =
      ap {B = ℕ → M (Hops n) (Unit {0})}
        (λ (f : Ptr → M (Hops n) (Unit {0})) this. do p ← member this; f p; end_lifetime this)
        (fun_ext free_if)

  same_move_assign : next_hop_move_assign {l = next_hop_libnl n} ≡ move_assign_object
  unfolding next_hop_move_assign move_assign_object
  same_move_assign =
      ap {B = ℕ → ℕ → M (Hops n) ℕ}
        (λ (f : Ptr → M (Hops n) (Unit {0})) this other. if this == other then pure this else (do
          old ← member this
          f old
          nexthop ← member other
          set_member this nexthop
          set_member other none
          pure this))
        (fun_ext free_if)

module _ (n : NextHopCalls) (c : IsNextHopCalls n) where
  -- Moving a `NextHop`, assigning to one by a move, also to itself, and destroying one are defined on
  -- live objects, and each `rtnl_nexthop` keeps one owner: an object or the outside.
  pub next_hop-IsMoving :
      IsMoving (next_hop_libnl n) (free_ptr n) next_hop_move next_hop_move_assign next_hop_destroy
  unfolding next_hop_move move_object
  next_hop-IsMoving =
      subst (λ d. IsMoving (next_hop_libnl n) (free_ptr n) next_hop_move next_hop_move_assign d)
        (sym (same_destroy n))
        (subst (λ a. IsMoving (next_hop_libnl n) (free_ptr n) next_hop_move a destroy_object)
          (sym (same_move_assign n)) (object-IsMoving (hops-IsAllocator n c)))

  module _ (ext : ℕ → ℕ) (w : Hops n) where
    -- What a constructor that clones gives: a new object with a hop of its own, or the exception and no
    -- change.
    abbrev pub Cloned : Run (Hops n) ℕ → Type 0
    Cloned r =
        Ends (Allocated ext w)
          (λ e v. (e ≡ runtime_error "Failed to clone route netlink nexthop") × Refused ext w v) r

    pub next_hop_clone-Cloned :
        (p : ℕ) → n.allocated w.store p ≡ true → Owned ext w → Cloned (next_hop_clone (some p) w)
    unfolding next_hop_clone clone_object
    next_hop_clone-Cloned p h o =
        clone_object-ok (hops-IsAllocator n c) ext w "Failed to clone route netlink nexthop" p
          (rw h (omega arith)) o

    -- Copying a `NextHop` that holds an `rtnl_nexthop` gives a new object with a fresh clone, or throws
    -- and changes nothing; the copied object is untouched.
    pub next_hop_copy-Cloned :
        (other q : ℕ) → IsLive w other (some q) → Owned ext w → Cloned (next_hop_copy other w)
    unfolding next_hop_copy clone_object
    next_hop_copy-Cloned other q h o = rw (member_lem w other (some q) h) (
        clone_object-ok (hops-IsAllocator n c) ext w "Failed to clone route netlink nexthop" q
          (Owned-Alive w ext other (some q) h o) o)
