-- ===== src/Route/NextHop/Attributes.antt =====
-- The attributes of a NextHop of src/route.cpp, on the state `S` of its `rtnl_nexthop`. The functions of
-- libnl are parameters.
use nlcpp.Common.{ℕ, ◌≡◌, Option, none, some}
use nlcpp.Common.Int.{ℤ}
use nlcpp.Common.Run.{M, ok, ◌>>◌}
use nlcpp.Route.Fields.{PlainField, AddrCalls, change, copy_found}

-- The getter and the setter of the gateway; the setter takes a null pointer too, and reports nothing.
pub record RtnlNextHop (S Addr : Type 0) : Type 0 where
  pub addr : AddrCalls S Addr
  pub weight_of : PlainField S ℕ
  pub ifindex_of : PlainField S ℤ
  pub gateway_of : PlainField S (Option Addr)

module _ {S Addr : Type 0} (rt : RtnlNextHop S Addr) where
  unfoldable pub weight : M S ℕ
  weight s = ok (rt.weight_of.get s) s

  unfoldable pub set_weight : ℕ → M S (Unit {0})
  unfolding change
  set_weight value = change (rt.weight_of.set value)

  unfoldable pub hop_ifindex : M S ℤ
  hop_ifindex s = ok (rt.ifindex_of.get s) s

  unfoldable pub set_hop_ifindex : ℤ → M S (Unit {0})
  unfolding change
  set_hop_ifindex value = change (rt.ifindex_of.set value)

  unfoldable pub gateway : M S (Option Addr)
  unfolding copy_found
  gateway s = copy_found rt.addr (rt.gateway_of.get s) s

  -- nl_addr_put, of null too
  abbrev put_ptr : Option Addr → S → S
  put_ptr none s = s
  put_ptr (some p) s = rt.addr.put p s

  -- `addr ? nl_addr_clone(addr->get()) : nullptr`
  unfoldable pub clone_given : Option Addr → S → Option Addr × S
  clone_given none s = (none, s)
  clone_given (some a) s = rt.addr.clone a s

  -- gateway(optional<Address>)
  unfoldable pub set_gateway : Option Addr → M S (Unit {0})
  unfolding change clone_given
  set_gateway addr s =
      let cloned = (clone_given addr s).0 in
      (change (rt.gateway_of.set cloned) >> change (put_ptr cloned)) (clone_given addr s).1

  -- Where libnl cannot clone the address, the gateway is cleared, and nothing is reported: the
  -- call does what it does without an address.
  set_gateway-clears :
      (a : Addr) (s t : S)
      → rt.addr.clone a s ≡ (none, t)
      → set_gateway (some a) s ≡ set_gateway none t
  unfolding set_gateway
  set_gateway-clears a s t h = rw h

  -- Where the address can be cloned, a gateway that is set is read back: the getter returns a clone of
  -- the clone that libnl was handed.
  gateway-set_gateway :
      (a p : Addr) (s t : S)
      → rt.addr.clone a s ≡ (some p, t)
      → ((g : Option Addr) (u : S) → rt.gateway_of.get (rt.gateway_of.set g u) ≡ g)
      → ((q : Addr) (u : S) → rt.gateway_of.get (rt.addr.put q u) ≡ rt.gateway_of.get u)
      → (set_gateway (some a) >> gateway) s
        ≡ copy_found rt.addr (some p) (rt.addr.put p (rt.gateway_of.set (some p) t))
  unfolding set_gateway gateway
  gateway-set_gateway a p s t h get_set get_put = rw (h, get_put, get_set)
