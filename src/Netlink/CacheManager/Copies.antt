-- ===== src/Netlink/CacheManager/Copies.antt =====
-- A copy of a CacheManager frees the manager of the other one again.
use nlcpp.Common.{
  ℕ, ◌≡◌, ◌≢◌, ◌∙◌, none, some, [], ◌∷◌, ◌++◌, arith, length, set, get_elem?-append,
  get_elem?-ne_length, get_elem?-set_self, sym, get_elem?-append_left, get_elem?-set_ne,
}
use nlcpp.Common.Run.{ok, fault, ◌>>=◌, ◌>>◌, after_ok}
use nlcpp.Objects.Defs.{Libnl, IsAllocator, World, set_member, construct, end_lifetime, call_put}
use nlcpp.Objects.Rules.{IsLive, member_lem, call_put-ok}
use nlcpp.Netlink.CacheManager.{
  ManagerCalls, manager_destroy, fd_of, manager_fd, manager_copy, manager_copy_assign,
}

module _ {l : Libnl} (c : IsAllocator l) where
  -- The last reference goes.
  destroy-last :
      (v : World l) (this p : ℕ)
      → IsLive v this (some p)
      → l.refs v.store p ≡ 1
      → manager_destroy this v
        ≡ ok tt (record { objects = set v.objects this none; store = l.put (some p) v.store })
  unfolding manager_destroy end_lifetime
  destroy-last v this p h one =
      rw (member_lem v this (some p) h, call_put-ok v (some p) (omega arith))

  put-last : (v : World l) (p : ℕ) → l.refs v.store p ≡ 1 → l.refs (l.put (some p) v.store) p ≡ 0
  put-last v p one = ground (arith, c.put_refs p p v.store)

  destroy-freed :
      (v : World l) (this p : ℕ)
      → IsLive v this (some p)
      → l.refs v.store p ≡ 0
      → manager_destroy this v ≡ fault
  unfolding manager_destroy call_put
  destroy-freed v this p h zero_refs = rw (member_lem v this (some p) h, zero_refs)

  fd-freed :
      (nl : ManagerCalls l) (v : World l) (this p : ℕ)
      → IsLive v this (some p)
      → l.refs v.store p ≡ 0
      → manager_fd nl this v ≡ fault
  unfolding manager_fd fd_of
  fd-freed nl v this p h zero_refs = rw (member_lem v this (some p) h, zero_refs)

  module _ (w : World l) (p : ℕ) (one : l.refs w.store p ≡ 1) where
    -- Of two objects with one manager, the second to be destroyed frees it again.
    both-destroyed :
        (first second : ℕ)
        → IsLive w first (some p)
        → IsLive w second (some p)
        → first ≢ second
        → (manager_destroy first >> manager_destroy second) w ≡ fault
    both-destroyed first second h h' ne =
        after_ok (λ _. manager_destroy second) (destroy-last w first p h one)
        ∙ destroy-freed
            (record { objects = set w.objects first none; store = l.put (some p) w.store }) second p
            (get_elem?-set_ne w.objects first second none ne ∙ h') (put-last w p one)

    fd-after :
        (nl : ManagerCalls l) (first second : ℕ)
        → IsLive w first (some p)
        → IsLive w second (some p)
        → first ≢ second
        → (manager_destroy first >> manager_fd nl second) w ≡ fault
    fd-after nl first second h h' ne =
        after_ok (λ _. manager_fd nl second) (destroy-last w first p h one)
        ∙ fd-freed nl
            (record { objects = set w.objects first none; store = l.put (some p) w.store }) second p
            (get_elem?-set_ne w.objects first second none ne ∙ h') (put-last w p one)

    module _ (this : ℕ) (h : IsLive w this (some p)) where
      -- The copy stands behind the other objects.
      abbrev copied : World l
      copied = record w { objects = w.objects ++ (some (some p) ∷ []) }

      copy_lem : manager_copy this w ≡ ok (length w.objects) copied
      unfolding manager_copy construct
      copy_lem = rw (member_lem w this (some p) h)

      old-IsLive : IsLive copied this (some p)
      old-IsLive = get_elem?-append_left w.objects (some (some p) ∷ []) this (some (some p)) h

      new-IsLive : IsLive copied (length w.objects) (some p)
      new-IsLive = get_elem?-append w.objects (some (some p)) []

      places-ne : length w.objects ≢ this
      places-ne = get_elem?-ne_length w.objects this (some (some p)) h

module _ {l : Libnl} (c : IsAllocator l) where
  -- A copy of a CacheManager that is the only owner of its manager: to destroy both is undefined, in
  -- either order, and so is the descriptor of the one after the other has been destroyed.
  pub manager_copy-freed :
      (nl : ManagerCalls l) (w : World l) (this p : ℕ)
      → IsLive w this (some p)
      → l.refs w.store p ≡ 1
      → ((manager_copy this >>= λ other. manager_destroy other >> manager_destroy this) w ≡ fault)
        × ((manager_copy this >>= λ other. manager_destroy this >> manager_destroy other) w ≡ fault)
        × ((manager_copy this >>= λ other. manager_destroy other >> manager_fd nl this) w ≡ fault)
        × ((manager_copy this >>= λ other. manager_destroy this >> manager_fd nl other) w ≡ fault)
  manager_copy-freed nl w this p h one =
      let old = old-IsLive c w p one this h in
      let new = new-IsLive c w p one this h in
      let ne = places-ne c w p one this h in
      let made = copy_lem c w p one this h in
      let v = copied c w p one this h in
      (
        after_ok (λ other. manager_destroy other >> manager_destroy this) made
            ∙ both-destroyed c v p one (length w.objects) this new old ne,
        after_ok (λ other. manager_destroy this >> manager_destroy other) made
            ∙ both-destroyed c v p one this (length w.objects) old new (λ e. ne (sym e)),
        after_ok (λ other. manager_destroy other >> manager_fd nl this) made
            ∙ fd-after c v p one nl (length w.objects) this new old ne,
        after_ok (λ other. manager_destroy this >> manager_fd nl other) made
            ∙ fd-after c v p one nl this (length w.objects) old new (λ e. ne (sym e)),
      )

  -- After a copy assignment between two managers with one owner each, the target's own manager is
  -- never freed, and to destroy both objects is undefined.
  manager_copy_assign-freed :
      (w : World l) (this other p q : ℕ)
      → IsLive w this (some p)
      → IsLive w other (some q)
      → this ≢ other
      → l.refs w.store q ≡ 1
      → ((manager_copy_assign this other >>= λ _. manager_destroy this >> manager_destroy other) w
          ≡ fault)
        × (manager_copy_assign this other w
            ≡ ok this (record w { objects = set w.objects this (some (some q)) }))
  unfolding manager_copy_assign set_member
  manager_copy_assign-freed w this other p q hp hq ne one =
      let assigned : manager_copy_assign this other w
          ≡ ok this (record w { objects = set w.objects this (some (some q)) }) =
        rw (member_lem w other (some q) hq) in
      (
        after_ok (λ _. manager_destroy this >> manager_destroy other) assigned
            ∙ both-destroyed c (record w { objects = set w.objects this (some (some q)) }) q one
                this other (get_elem?-set_self w.objects this (some (some p)) (some (some q)) hp)
                (get_elem?-set_ne w.objects this other (some (some q)) ne ∙ hq) ne,
        assigned,
      )
