-- ===== src/Route/RouteSocket.antt =====
-- RouteSocket of src/route.cpp: requests to the kernel, and how their answers are reported. The
-- requests of libnl and the flags of linux/netlink.h are parameters.
pub mod Answers
use Prim.Native.Nat.{bit_or}
use Prim.Native.String.{String}
use nlcpp.Common.{ℕ, Bool, true, false, if◌then◌else◌}
use nlcpp.Common.Int.{ℤ, neg, int_eq}
use nlcpp.Common.Run.{M, ok, ◌>>=◌, ◌>>◌, pure}
use nlcpp.Exception.{Errno, throw_code}

-- The requests of libnl on the kernel's state `S`, with the values that the wrapped objects point to,
-- and the flags.
pub record Rtnl (S Addr Link Route : Type 0) : Type 0 where
  pub addr_add : Addr → ℕ → S → ℤ × S
  pub addr_delete : Addr → ℕ → S → ℤ × S
  pub link_add : Link → ℕ → S → ℤ × S
  pub link_delete : Link → S → ℤ × S
  pub link_change : Link → Link → ℕ → S → ℤ × S
  pub route_add : Route → ℕ → S → ℤ × S
  pub route_delete : Route → ℕ → S → ℤ × S
  pub nlm_f_create : ℕ
  pub nlm_f_excl : ℕ

abbrev pub request {ℓ} : {S : Type ℓ} → (S → ℤ × S) → M S ℤ
request f s = ok (f s).0 (f s).1

module _ {S Addr Link Route : Type 0} (e : Errno) (rt : Rtnl S Addr Link Route) where
  -- add(const RouteAddress &)
  unfoldable pub add_address : Addr → M S Bool
  unfolding throw_code
  add_address addr = do
    err ← request (rt.addr_add addr 0)
    if int_eq err (neg e.nle_exist)
        then pure false
        else (do throw_code e "rtnl_addr_add failed" err; pure true)

  -- del(const RouteAddress &)
  unfoldable pub del_address : Addr → M S Bool
  unfolding throw_code
  del_address addr = do
    err ← request (rt.addr_delete addr 0)
    if int_eq err (neg e.nle_noaddr)
        then pure false
        else (do throw_code e "rtnl_addr_delete failed" err; pure true)

  -- add(const RouteLink &)
  unfoldable pub add_link : Link → M S Bool
  unfolding throw_code
  add_link link = do
    err ← request (rt.link_add link (bit_or rt.nlm_f_create rt.nlm_f_excl))
    if int_eq err (neg e.nle_exist)
        then pure false
        else (do throw_code e "rtnl_link_add failed" err; pure true)

  -- del(const RouteLink &)
  unfoldable pub del_link : Link → M S Bool
  unfolding throw_code
  del_link link = do
    err ← request (rt.link_delete link)
    if int_eq err (neg e.nle_nodev)
        then pure false
        else (do throw_code e "rtnl_link_delete failed" err; pure true)

  -- change(const RouteLink &, const RouteLink &)
  unfoldable pub change_link : Link → Link → M S Bool
  unfolding throw_code
  change_link orig changes = do
    err ← request (rt.link_change orig changes 0)
    throw_code e "rtnl_link_change failed" err
    pure true

  -- add(const Route &)
  unfoldable pub add_route : Route → M S Bool
  unfolding throw_code
  add_route route = do
    err ← request (rt.route_add route rt.nlm_f_excl)
    if int_eq err (neg e.nle_exist)
        then pure false
        else (do throw_code e "rtnl_route_add failed" err; pure true)

  -- del(const Route &)
  unfoldable pub del_route : Route → M S Bool
  unfolding throw_code
  del_route route = do
    err ← request (rt.route_delete route 0)
    if int_eq err (neg e.nle_obj_notfound)
        then pure false
        else (do throw_code e "rtnl_route_delete failed" err; pure true)
