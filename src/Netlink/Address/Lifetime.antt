-- ===== src/Netlink/Address/Lifetime.antt =====
-- Objects of Address keep the reference counts of their `nl_addr` right.
use Prim.Native.String.{String, ◌++◌}
use nlcpp.Common.{ℕ, ◌<◌, ◌≡◌, ◌≢◌, refl, false, some, arith, ◌==◌, set}
use nlcpp.Common.Int.{ℤ}
use nlcpp.Common.Run.{Ends, returns, Thrown, runtime_error}
use nlcpp.Exception.{Errno, IsErrno, int_min}
use nlcpp.Exception.Codes.{Tells}
use nlcpp.Objects.Defs.{Ptr, Libnl, IsCounted, World}
use nlcpp.Objects.Rules.{Owned, IsLive, member_lem, call_put-ok, call_clone-ok, Owned-Alive}
use nlcpp.Objects.Handle.{clone_object}
use nlcpp.Objects.Handle.Life.{Allocated, Refused, clone_object-ok}
use nlcpp.Objects.Class.{Class}
use nlcpp.Objects.Handle.Replace.{released, other-Alive, replaced}
use nlcpp.Netlink.Address.{
  Parse, IsParse, address_take, address_share, address_parse, address_copy, address_copy_assign,
  address_move, address_move_assign, address_destroy,
}

module _ {l : Libnl} (c : IsCounted l) (ext : ℕ → ℕ) (w : World l) where
  -- Copying an address that holds one gives a new object with a fresh clone, or throws and changes
  -- nothing; the copied object is untouched.
  address_copy-Allocated :
      (other q : ℕ)
      → IsLive w other (some q)
      → Owned ext w
      → Ends
          (Allocated ext w)
          (λ e v. (e ≡ runtime_error "Failed to copy address") × Refused ext w v)
          (address_copy other w)
  unfolding address_copy clone_object
  address_copy-Allocated other q h o = rw (member_lem w other (some q) h) (
      clone_object-ok c.allocator ext w "Failed to copy address" q
        (Owned-Alive w ext other (some q) h o) o)

  -- Copy assignment between two addresses never throws: the target drops its own address and holds
  -- a clone of the other, or null where libnl could not clone it.
  pub address_copy_assign-Owned :
      (this other : ℕ) (p : Ptr) (q : ℕ)
      → IsLive w this p
      → IsLive w other (some q)
      → this ≢ other
      → Owned ext w
      → Ends
          (λ r v.
            let cloned = l.clone q (l.put p w.store) in
            (r ≡ this)
            × (v.objects ≡ set w.objects this (some cloned.0))
            × (v.store ≡ cloned.1)
            × Owned ext v)
          (λ _ _. ⊥)
          (address_copy_assign this other w)
  unfolding address_copy_assign
  address_copy_assign-Owned this other p q hp hq ne o =
      let ne' : (this == other) ≡ false = ground arith in
      let s = l.put p w.store in
      let o' = released c.allocator ext w this p hp o in
      let alive : 0 < l.refs s q =
        other-Alive c.allocator ext w this p hp s other (some q) hq ne o' in
      rw
        (
          ne',
          member_lem w this p hp,
          call_put-ok w p (Owned-Alive w ext this p hp o),
          member_lem (record w { store = s }) other (some q) hq,
          call_clone-ok (record w { store = s }) q alive,
        )
        (returns (
          refl,
          refl,
          refl,
          replaced c.allocator ext w this p hp s (l.clone q s) (c.allocator.clone_fresh q s alive)
              o',
        ))

abbrev pub IsParseFailure : Errno → String → Thrown → Type 0
IsParseFailure e str x =
    (n : ℕ) × (n ≢ 0) × Tells e ("Failed to parse address \"" ++ str ++ "\": ") n x

module _ {l : Libnl} (c : IsCounted l) (e : Errno) (he : IsErrno e) (parse : Parse l)
    (hp : IsParse l parse) (str : String) (family : ℤ)
    (bounded : (s : l.Store) → (parse str family s).0 ≢ int_min) where
  abbrev pub address_class : Class l
  address_class = record {
    IsFailure = IsParseFailure e str;
    make = address_parse e parse str family;
    take_ownership = address_take;
    share_ownership = address_share;
    move = address_move;
    move_assign = address_move_assign;
    destroy = address_destroy;
  }
