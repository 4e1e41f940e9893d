-- ===== src/Route/RouteEntry/Attributes/Values.antt =====
-- The values of a Route, set and read back.
use nlcpp.Common.{ℕ, ◌≡◌, ◌≢◌, ◌<◌, refl, none, some, arith, ◌⊎◌, inl, inr}
use nlcpp.Common.Int.{abs}
use nlcpp.Common.Run.{ok, fault, Ends, Ends-map, ◌>>◌, runtime_error}
use nlcpp.Exception.{Errno, IsErrno, int_min}
use nlcpp.Exception.Codes.{Tells, throw_code-then}
use nlcpp.Route.Fields.{IsStored}
use nlcpp.Route.Fields.Addresses.{copy-Copied}
use nlcpp.Route.RouteEntry.Attributes.{
  RtnlRoute, to_uint8, route_scope, set_route_scope, protocol, set_protocol, dst, set_dst, copy_dst,
}

module _ {S Addr : Type 0} (rt : RtnlRoute S Addr) where
  -- A scope and a protocol are read back as they were set where they fit in a byte, as all constants of
  -- the two enumerations do.
  bytes-roundtrip :
      (n : ℕ) (s : S)
      → IsStored rt.scope_of
      → IsStored rt.protocol_of
      → n < 256
      → ((set_route_scope rt n >> route_scope rt) s ≡ ok n (rt.scope_of.set n s))
        × ((set_protocol rt n >> protocol rt) s ≡ ok n (rt.protocol_of.set n s))
  unfolding set_route_scope route_scope set_protocol protocol
  bytes-roundtrip n s hs hp lt =
      let small : to_uint8 n ≡ n = omega arith in (rw (small, hs), rw (small, hp))

  -- `dst()` of a route without a destination hands a null pointer to `nl_addr_clone`.
  dst-unset : (s : S) → rt.dst_of.get s ≡ none → dst rt s ≡ fault
  unfolding dst copy_dst
  dst-unset s h = rw h

  -- A destination that libnl stores is read back as a clone of it. Otherwise the setter throws what
  -- tells libnl's error and libnl's state stands, or the getter throws where the clone fails. The
  -- result of libnl is taken to be above the least `int`.
  pub dst-set_dst :
      (e : Errno) (he : IsErrno e) (a : Addr) (s : S)
      → (rt.dst_of.set (some a) s).0 ≢ int_min
      → (abs (rt.dst_of.set (some a) s).0 ≡ 0 → rt.dst_of.get (rt.dst_of.set (some a) s).1 ≡ some a)
      → Ends
          (λ p t.
            (abs (rt.dst_of.set (some a) s).0 ≡ 0)
            × (rt.addr.clone a (rt.dst_of.set (some a) s).1 ≡ (some p, t)))
          (λ x t.
            ((abs (rt.dst_of.set (some a) s).0 ≢ 0)
              × (t ≡ (rt.dst_of.set (some a) s).1)
              × Tells e "rtnl_route_set_dst failed" (abs (rt.dst_of.set (some a) s).0) x)
            ⊎ ((x ≡ runtime_error "Failed to copy address")
                × (rt.addr.clone a (rt.dst_of.set (some a) s).1 ≡ (none, t))))
          ((set_dst rt e a >> dst rt) s)
  unfolding set_dst dst copy_dst
  dst-set_dst e he a s h kept =
      throw_code-then e he "rtnl_route_set_dst failed" (rt.dst_of.set (some a) s).1 (dst rt)
        (rt.dst_of.set (some a) s).0 h
        (λ z. rw (kept z) (
          Ends-map (λ p t c. (z, c)) (λ x t c. inr c)
            (copy-Copied rt.addr a (rt.dst_of.set (some a) s).1)))
        (λ x nz tells. inl (nz, refl, tells))
