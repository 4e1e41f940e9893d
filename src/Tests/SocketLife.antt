-- ===== src/Tests/SocketLife.antt =====
-- The theorem on the life of a Socket, at a libnl with two sets of callbacks and one socket.
use nlcpp.Common.{
  ℕ, ◌≡◌, refl, ap, true, Bool-cases, inl, inr, Option, none, some, arith, ◌==◌, if◌then◌else◌,
}
use nlcpp.Common.Int.{pos}
use nlcpp.Common.Run.{Ends, ◌>>=◌}
use nlcpp.Objects.Defs.{Ptr}
use nlcpp.Netlink.Socket.Open.{SocketCalls, socket_make, socket_destroy}
use nlcpp.Netlink.Socket.Open.Leak.{
  one_more, one_less, update, IsCbAlloc, IsSocketAlloc, IsSocketCalls, Leaks, socket-leaks,
}

abbrev pub Sockets : Type 0
Sockets = (ℕ → ℕ) × (ℕ → Option ℕ)

abbrev pub take_set : ℕ → Sockets → Sockets
take_set cb s = (one_more s.0 cb, s.1)

abbrev pub alloc_set : Sockets → Ptr × Sockets
alloc_set s =
    if s.0 0 == 0
    then (some 0, take_set 0 s)
    else (if s.0 1 == 0 then (some 1, take_set 1 s) else (none, s))

abbrev pub is_free : Option ℕ → ℕ
is_free none = 0
is_free (some cb) = 1

abbrev pub alloc_socket : ℕ → Sockets → Ptr × Sockets
alloc_socket cb s =
    if is_free (s.1 0) == 0 then (some 0, (one_more s.0 cb, update s.1 0 (some cb))) else (none, s)

-- Freeing a socket releases its set.
abbrev pub free_socket : ℕ → Sockets → Sockets
free_socket k s = elim (s.1 k) [ none ↦ s | some cb ↦ (one_less s.0 cb, update s.1 k none) ]

abbrev pub socket_calls : SocketCalls Sockets
socket_calls = record {
  refs = λ s. s.0;
  set_of = λ s. s.1;
  nl_cb_alloc = alloc_set;
  nl_socket_alloc_cb = alloc_socket;
  nl_connect = λ k protocol s. (pos 0, s);
  nl_socket_free = free_socket;
  nl_cb_put = λ cb s. (one_less s.0 cb, s.1);
  set_callbacks = λ cb s. s;
}

alloc_set-IsCbAlloc : (s : Sockets) → IsCbAlloc socket_calls s (alloc_set s)
alloc_set-IsCbAlloc s = elim (Bool-cases (s.0 0 == 0)) [
  | inl z ↦ rw z (ground arith, ((λ q. refl), λ k. refl))
  | inr nz ↦ elim (Bool-cases (s.0 1 == 0)) [
    | inl z ↦ rw (nz, z) (ground arith, ((λ q. refl), λ k. refl))
    | inr nz' ↦ rw (nz, nz') ((λ q. refl), λ k. refl)
  ]
]

not_used : (o : Option ℕ) → (is_free o == 0) ≡ true → o ≡ none
not_used none h = refl
not_used (some cb) h = ground arith

alloc_socket-IsSocketAlloc :
    (cb : ℕ) (s : Sockets) → IsSocketAlloc socket_calls cb s (alloc_socket cb s)
alloc_socket-IsSocketAlloc cb s = elim (Bool-cases (is_free (s.1 0) == 0)) [
  | inl z ↦ rw z (not_used (s.1 0) z, ((λ q. refl), λ k. refl))
  | inr nz ↦ rw nz ((λ q. refl), λ k. refl)
]

freed :
    (k cb : ℕ) (s : Sockets)
    → s.1 k ≡ some cb
    → free_socket k s ≡ (one_less s.0 cb, update s.1 k none)
freed k cb s h = rw (h, free_socket)

socket_calls-IsSocketCalls : IsSocketCalls socket_calls
socket_calls-IsSocketCalls = record {
  cb_alloc = alloc_set-IsCbAlloc;
  socket_alloc = λ cb s h. alloc_socket-IsSocketAlloc cb s;
  connect_same = λ k protocol s. ((λ q. refl), λ k'. refl);
  socket_free = λ k cb s h used.
      ((λ q. ap (λ t. t.0 q) (freed k cb s h)), λ k'. ap (λ t. t.1 k') (freed k cb s h));
  cb_put = λ cb s used. ((λ q. refl), λ k. refl);
  set_same = λ cb s. ((λ q. refl), λ k. refl);
}

abbrev pub unused : Sockets
unused = ((λ q. 0), λ k. none)

socket-leaks_example :
    Ends
      (λ _ t. Leaks socket_calls socket_calls-IsSocketCalls 0 unused t)
      (λ _ t. Leaks socket_calls socket_calls-IsSocketCalls 0 unused t)
      ((socket_make socket_calls (pos 0) >>= socket_destroy socket_calls) unused)
socket-leaks_example = socket-leaks socket_calls socket_calls-IsSocketCalls 0 unused (pos 0) refl
