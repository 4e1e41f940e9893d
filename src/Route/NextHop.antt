-- ===== src/Route/NextHop.antt =====
-- NextHop of src/route.cpp: the life of its objects, each with an `rtnl_nexthop` of its own. These
-- have no reference count: an `rtnl_nexthop` is cloned, and freed once. The functions of libnl are
-- parameters.
pub mod Lifetime
pub mod Attributes
use nlcpp.Common.{ℕ, ◌≡◌, ◌==◌, Bool, true, false, Option, none, some, not, if◌then◌else◌}
use nlcpp.Common.Run.{M, runtime_error, ◌>>=◌, ◌>>◌, pure, throw, when}
use nlcpp.Objects.Defs.{
  Ptr, Libnl, World, is_null, member, set_member, construct, end_lifetime, call_alloc, call_clone,
  call_put,
}

-- rtnl_route_nh_alloc, rtnl_route_nh_clone and rtnl_route_nh_free.
pub record NextHopCalls : Type 1 where
  pub Store : Type 0
  pub allocated : Store → ℕ → Bool
  pub alloc : Store → Ptr × Store
  pub clone : ℕ → Store → Ptr × Store
  pub free : ℕ → Store → Store

-- Null and no change, or what was not allocated before.
abbrev pub IsNew : (n : NextHopCalls) → n.Store → Ptr × n.Store → Type 0
IsNew n s (none, t) = (q : ℕ) → n.allocated t q ≡ n.allocated s q
IsNew n s (some p, t) =
    (n.allocated s p ≡ false)
    × ((q : ℕ) → n.allocated t q ≡ (if p == q then true else n.allocated s q))

-- The documented behaviour of these functions.
pub record IsNextHopCalls (n : NextHopCalls) : Type 0 where
  pub alloc_new : (s : n.Store) → IsNew n s (n.alloc s)
  pub clone_new : (p : ℕ) (s : n.Store) → n.allocated s p ≡ true → IsNew n s (n.clone p s)
  pub free_allocated :
      (p q : ℕ) (s : n.Store)
      → n.allocated s p ≡ true
      → n.allocated (n.free p s) q ≡ (if p == q then false else n.allocated s q)

abbrev pub free_ptr : (n : NextHopCalls) → Ptr → n.Store → n.Store
free_ptr n none s = s
free_ptr n (some p) s = n.free p s

-- As a store where an allocated object has one owner. Nothing calls its `get`.
abbrev pub next_hop_libnl : NextHopCalls → Libnl
next_hop_libnl n = record {
  Store = n.Store;
  refs = λ s p. if n.allocated s p then 1 else 0;
  alloc = n.alloc;
  clone = n.clone;
  get = λ p s. s;
  put = free_ptr n;
}

abbrev pub Hops : NextHopCalls → Type 0
Hops n = World (next_hop_libnl n)

module _ {l : Libnl} where
  -- NextHop()
  unfoldable pub next_hop_make : M (World l) ℕ
  unfolding call_alloc construct
  next_hop_make = do
    nexthop ← call_alloc
    if is_null nexthop
        then throw (runtime_error "Failed to allocate route netlink nexthop")
        else construct nexthop

  -- NextHop(rtnl_nexthop *, CreateCopyFromPointer)
  unfoldable pub next_hop_clone : Ptr → M (World l) ℕ
  unfolding call_clone construct
  next_hop_clone nh = do
    nexthop ← call_clone nh
    if is_null nexthop
        then throw (runtime_error "Failed to clone route netlink nexthop")
        else construct nexthop

  -- NextHop(rtnl_nexthop *), deprecated
  unfoldable pub next_hop_from : Ptr → M (World l) ℕ
  unfolding next_hop_clone
  next_hop_from nh = next_hop_clone nh

  -- NextHop(rtnl_nexthop *, TakeOwnershipOfPointer)
  unfoldable pub next_hop_adopt : Ptr → M (World l) ℕ
  unfolding construct
  next_hop_adopt nh = construct nh

  -- NextHop(const NextHop &)
  unfoldable pub next_hop_copy : ℕ → M (World l) ℕ
  unfolding member call_clone construct
  next_hop_copy other = do
    nh ← member other
    nexthop ← call_clone nh
    if is_null nexthop
        then throw (runtime_error "Failed to clone route netlink nexthop")
        else construct nexthop

  -- operator=(const NextHop &)
  unfoldable pub next_hop_copy_assign : ℕ → ℕ → M (World l) ℕ
  unfolding member call_put call_clone set_member
  next_hop_copy_assign this other = if this == other then pure this else do
    old ← member this
    when (not (is_null old)) (call_put old)
    nh ← member other
    nexthop ← call_clone nh
    set_member this nexthop
    if is_null nexthop
        then throw (runtime_error "Failed to clone route netlink nexthop")
        else pure this

  -- NextHop(NextHop &&)
  unfoldable pub next_hop_move : ℕ → M (World l) ℕ
  unfolding member construct set_member
  next_hop_move other = do
    nexthop ← member other
    this ← construct nexthop
    set_member other none
    pure this

  -- operator=(NextHop &&)
  unfoldable pub next_hop_move_assign : ℕ → ℕ → M (World l) ℕ
  unfolding member call_put set_member
  next_hop_move_assign this other = if this == other then pure this else do
    old ← member this
    when (not (is_null old)) (call_put old)
    nexthop ← member other
    set_member this nexthop
    set_member other none
    pure this

  -- ~NextHop()
  unfoldable pub next_hop_destroy : ℕ → M (World l) (Unit {0})
  unfolding member call_put end_lifetime
  next_hop_destroy this = do
    nexthop ← member this
    when (not (is_null nexthop)) (call_put nexthop)
    end_lifetime this

  -- rtnl_nexthop * take()
  unfoldable pub next_hop_take : ℕ → M (World l) Ptr
  unfolding member set_member
  next_hop_take this = do ptr ← member this; set_member this none; pure ptr
