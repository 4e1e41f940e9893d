-- ===== src/Netlink/Socket/Open/Leak.antt =====
-- What is left of a Socket after its life.
use nlcpp.Common.{
  ℕ, ◌+◌, ◌-◌, ◌<◌, ◌≡◌, sym, ◌∙◌, Option, none, some, arith, ◌==◌, if◌then◌else◌, Bool-cases, inl,
  inr,
}
use mathlib.Core.Path.{subst}
use mathlib.Core.Option.{some-injective, none-ne-some}
use nlcpp.Common.Int.{ℤ}
use nlcpp.Common.Run.{Ends, returns, raises, Ends-then, ◌>>=◌}
use nlcpp.Objects.Defs.{Ptr}
use nlcpp.Netlink.Socket.Calls.{is_negative}
use nlcpp.Netlink.Socket.Open.{
  SocketCalls, alloc_socket, add_callbacks, connect, socket_make, socket_destroy,
}

-- The same counts and sockets, with one more reference of `cb`, and one more socket.
abbrev pub one_more : (ℕ → ℕ) → ℕ → ℕ → ℕ
one_more refs cb q = if cb == q then refs q + 1 else refs q

abbrev pub one_less : (ℕ → ℕ) → ℕ → ℕ → ℕ
one_less refs cb q = if cb == q then refs q - 1 else refs q

abbrev pub update : (ℕ → Option ℕ) → ℕ → Option ℕ → ℕ → Option ℕ
update f k v q = if k == q then v else f q

module _ {S : Type 0} (nl : SocketCalls S) where
  -- The counts and the sockets are these.
  abbrev pub Holds : S → (ℕ → ℕ) → (ℕ → Option ℕ) → Type 0
  Holds s refs sets = ((q : ℕ) → nl.refs s q ≡ refs q) × ((k : ℕ) → nl.set_of s k ≡ sets k)

  abbrev pub Same : S → S → Type 0
  Same s t = Holds t (nl.refs s) (nl.set_of s)

  -- What an allocation of a set, or of a socket for the set `cb`, did.
  abbrev pub IsCbAlloc : S → Ptr × S → Type 0
  IsCbAlloc s (none, t) = Same s t
  IsCbAlloc s (some cb, t) = (nl.refs s cb ≡ 0) × Holds t (one_more (nl.refs s) cb) (nl.set_of s)

  abbrev pub IsSocketAlloc : ℕ → S → Ptr × S → Type 0
  IsSocketAlloc cb s (none, t) = Same s t
  IsSocketAlloc cb s (some k, t) =
      (nl.set_of s k ≡ none) × Holds t (one_more (nl.refs s) cb) (update (nl.set_of s) k (some cb))

  -- The documented behaviour: a socket has a reference of its own to its set of callbacks, which its
  -- freeing gives back.
  pub record IsSocketCalls : Type 0 where
    pub cb_alloc : (s : S) → IsCbAlloc s (nl.nl_cb_alloc s)
    pub socket_alloc :
        (cb : ℕ) (s : S) → 0 < nl.refs s cb → IsSocketAlloc cb s (nl.nl_socket_alloc_cb cb s)
    pub connect_same : (k : ℕ) (protocol : ℤ) (s : S) → Same s (nl.nl_connect k protocol s).1
    pub socket_free :
        (k cb : ℕ) (s : S)
        → nl.set_of s k ≡ some cb
        → 0 < nl.refs s cb
        → Holds (nl.nl_socket_free k s) (one_less (nl.refs s) cb) (update (nl.set_of s) k none)
    pub cb_put :
        (cb : ℕ) (s : S)
        → 0 < nl.refs s cb
        → Holds (nl.nl_cb_put cb s) (one_less (nl.refs s) cb) (nl.set_of s)
    pub set_same : (cb : ℕ) (s : S) → Same s (nl.set_callbacks cb s)

  module _ (law : IsSocketCalls) where
    -- A set that was free has one reference, and all else is as before.
    abbrev pub Leaks : ℕ → S → S → Type 0
    Leaks cb s t = (nl.refs s cb ≡ 0) × Holds t (one_more (nl.refs s) cb) (nl.set_of s)

    -- A socket `k` with the set `cb` beside the leak.
    abbrev Allocated : ℕ → ℕ → S → S → Type 0
    Allocated cb k s t =
        (nl.refs s cb ≡ 0)
        × (nl.set_of s k ≡ none)
        × Holds t (one_more (one_more (nl.refs s) cb) cb) (update (nl.set_of s) k (some cb))

    -- The members of a Socket that has been opened: its set of callbacks is the last thing allocated.
    abbrev Opened : ℕ → S → ℕ × ℕ → S → Type 0
    Opened cb s (k, callbacks) t = (u : S) × Allocated cb k s u × Leaks callbacks u t

    free-Leaks : (cb k : ℕ) (s t : S) → Allocated cb k s t → Leaks cb s (nl.nl_socket_free k t)
    free-Leaks cb k s t (zero_refs, fresh, (refs, sets)) =
        let freed = law.socket_free k cb t (ground (arith, sets k)) (ground (arith, refs cb)) in
        (
          zero_refs,
          (
            (λ q. ground (arith, refs q, refs cb, zero_refs, freed.0 q)),
            λ q. ground (arith, fresh, sets q, freed.1 q),
          ),
        )

    Same-Allocated : (cb k : ℕ) (s t u : S) → Allocated cb k s t → Same t u → Allocated cb k s u
    Same-Allocated cb k s t u (zero_refs, fresh, (refs, sets)) same =
        (zero_refs, fresh, ((λ q. same.0 q ∙ refs q), λ q. same.1 q ∙ sets q))

    Same-Leaks : (cb : ℕ) (s t u : S) → Leaks cb s t → Same t u → Leaks cb s u
    Same-Leaks cb s t u (zero_refs, (refs, sets)) same =
        (zero_refs, ((λ q. same.0 q ∙ refs q), λ q. same.1 q ∙ sets q))

    put-Same : (cb : ℕ) (s t : S) → Leaks cb s t → Same s (nl.nl_cb_put cb t)
    put-Same cb s t (zero_refs, (refs, sets)) =
        let put = law.cb_put cb t (ground (arith, refs cb, zero_refs)) in
        ((λ q. ground (arith, zero_refs, refs q, refs cb, put.0 q)), λ q. put.1 q ∙ sets q)

    alloc-Leaks : (cb : ℕ) (s : S) (r : Ptr × S) → IsCbAlloc s r → r.0 ≡ some cb → Leaks cb s r.1
    alloc-Leaks cb s (none, t) is_alloc h = absurd (none-ne-some cb h)
    alloc-Leaks cb s (some c, t) is_alloc h =
        subst (λ x. Leaks x s t) (some-injective c cb h) is_alloc

    module _ (cb : ℕ) (s : S) where
      abbrev Leaking : {A : Type 0} → A → S → Type 0
      Leaking a t = Leaks cb s t

      add_callbacks-Ends :
          (k : ℕ) (t : S)
          → Allocated cb k s t
          → (r : Ptr × S) → IsCbAlloc t r
          → Ends (Opened cb s) Leaking (add_callbacks nl k r.0 r.1)
      unfolding add_callbacks
      add_callbacks-Ends k t allocated (none, u) same =
          raises (free-Leaks cb k s u (Same-Allocated cb k s t u allocated same))
      add_callbacks-Ends k t allocated (some c, u) leaks =
          returns (t, allocated, Same-Leaks c t u (nl.set_callbacks c u) leaks (law.set_same c u))

      connect-Ends :
          (k : ℕ) (protocol : ℤ) (t : S)
          → Allocated cb k s t
          → Ends (Opened cb s) Leaking (connect nl (some k) protocol t)
      unfolding connect
      connect-Ends k protocol t allocated =
          let u = (nl.nl_connect k protocol t).1 in
          let allocated' = Same-Allocated cb k s t u allocated (law.connect_same k protocol t) in
          elim (Bool-cases (is_negative (nl.nl_connect k protocol t).0)) [
            | inl h ↦ rw (connect, h) (raises (free-Leaks cb k s u allocated'))
            | inr h ↦
                rw (connect, h)
                  (add_callbacks-Ends k u allocated' (nl.nl_cb_alloc u) (law.cb_alloc u))
          ]

      connect_new-Ends :
          (protocol : ℤ) (t : S)
          → Leaks cb s t
          → (r : Ptr × S) → IsSocketAlloc cb t r
          → Ends (Opened cb s) Leaking (connect nl r.0 protocol r.1)
      unfolding connect
      connect_new-Ends protocol t leaks (none, u) same = raises (Same-Leaks cb s t u leaks same)
      connect_new-Ends protocol t (zero_refs, (refs, sets)) (some k, u) (fresh, (refs', sets')) =
          connect-Ends k protocol u (
            zero_refs,
            sym (sets k) ∙ fresh,
            ((λ q. ground (arith, refs q, refs' q)), λ q. ground (arith, sets q, sets' q)),
          )

      one_more-positive : (t : S) → Leaks cb s t → 0 < nl.refs t cb
      one_more-positive t (zero_refs, (refs, sets)) = ground (arith, refs cb)

      destroy-Leaks :
          (members : ℕ × ℕ) (t : S)
          → Opened cb s members t
          → Ends Leaking Leaking (socket_destroy nl members t)
      unfolding socket_destroy
      destroy-Leaks (k, callbacks) t (u, allocated, leaks) =
          let freed = nl.nl_cb_put callbacks t in
          returns (
            free-Leaks cb k s freed
              (Same-Allocated cb k s u freed allocated (put-Same callbacks u t leaks)))

      -- The set of callbacks that the constructor of Socket allocates first is never released: after
      -- the constructor, and the destructor if it returned, that set has one reference more than
      -- before, and every other set and every socket is as it was. The allocation of that set
      -- has succeeded.
      pub socket-leaks :
          (protocol : ℤ)
          → (nl.nl_cb_alloc s).0 ≡ some cb
          → Ends Leaking Leaking ((socket_make nl protocol >>= socket_destroy nl) s)
      unfolding socket_make
      socket-leaks protocol h =
          let t = (nl.nl_cb_alloc s).1 in
          let leaks : Leaks cb s t = alloc-Leaks cb s (nl.nl_cb_alloc s) (law.cb_alloc s) h in
          let r = nl.nl_socket_alloc_cb cb t in
          rw (socket_make, h, alloc_socket)
            (Ends-then
              (connect_new-Ends protocol t leaks r
                (law.socket_alloc cb t (one_more-positive t leaks)))
              destroy-Leaks (λ e u l. l))
