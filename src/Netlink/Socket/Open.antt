-- ===== src/Netlink/Socket/Open.antt =====
-- The constructor and the destructor of Socket of src/netlink.cpp: what they allocate and free. The
-- functions of libnl are parameters. `nl_socket_alloc_cb` is given the result of `nl_cb_alloc` unchecked,
-- and is undefined on a null pointer.
pub mod Leak
use nlcpp.Common.{ℕ, ◌+◌, ◌-◌, ◌<◌, ◌≡◌, Bool, Option, none, some, ◌==◌, if◌then◌else◌}
use nlcpp.Common.Int.{ℤ}
use nlcpp.Common.Run.{M, ok, fault, runtime_error, throw, pure, ◌>>=◌, ◌>>◌}
use nlcpp.Netlink.Socket.Calls.{is_negative}
use nlcpp.Objects.Defs.{Ptr}

-- The functions on the state `S` of libnl. `refs` is the reference count of a set of callbacks, and
-- `set_of` says which set an allocated socket holds a reference to.
pub record SocketCalls (S : Type 0) : Type 0 where
  pub refs : S → ℕ → ℕ
  pub set_of : S → ℕ → Option ℕ
  pub nl_cb_alloc : S → Ptr × S
  pub nl_socket_alloc_cb : (cb : ℕ) → S → Ptr × S
  pub nl_connect : (sock : ℕ) → (protocol : ℤ) → S → ℤ × S
  pub nl_socket_free : (sock : ℕ) → S → S
  pub nl_cb_put : (cb : ℕ) → S → S
  pub set_callbacks : (cb : ℕ) → S → S

module _ {S : Type 0} (nl : SocketCalls S) where
  abbrev pub call_on : (S → S) → M S (Unit {0})
  call_on f s = ok tt (f s)

  -- `sock = nl_socket_alloc_cb(nl_cb_alloc(NL_CB_VERBOSE));`, from the set of callbacks
  unfoldable pub alloc_socket : Ptr → M S Ptr
  alloc_socket none s = fault
  alloc_socket (some cb) s = ok (nl.nl_socket_alloc_cb cb s).0 (nl.nl_socket_alloc_cb cb s).1

  -- nl_cb_err and the calls of nl_cb_set
  unfoldable pub add_callbacks : (sock : ℕ) → Ptr → M S (ℕ × ℕ)
  add_callbacks sock none = do
    call_on (nl.nl_socket_free sock)
    throw (runtime_error "Failed to allocate callback set")
  add_callbacks sock (some callbacks) = do
    call_on (nl.set_callbacks callbacks)
    pure (sock, callbacks)

  unfoldable pub connect : Ptr → (protocol : ℤ) → M S (ℕ × ℕ)
  unfolding add_callbacks
  connect none protocol = throw (runtime_error "Failed to allocate netlink socket")
  connect (some sock) protocol = do
    err ← λ s. ok (nl.nl_connect sock protocol s).0 (nl.nl_connect sock protocol s).1
    if is_negative err
        then (do
          call_on (nl.nl_socket_free sock)
          throw (runtime_error "Failed to connect netlink socket"))
        else (do
          callbacks ← λ s. ok (nl.nl_cb_alloc s).0 (nl.nl_cb_alloc s).1
          add_callbacks sock callbacks)

  -- Socket(int protocol): the members `sock` and `callbacks`
  unfoldable pub socket_make : (protocol : ℤ) → M S (ℕ × ℕ)
  unfolding alloc_socket connect
  socket_make protocol = do
    cb ← λ s. ok (nl.nl_cb_alloc s).0 (nl.nl_cb_alloc s).1
    sock ← alloc_socket cb
    connect sock protocol

  -- ~Socket()
  unfoldable pub socket_destroy : ℕ × ℕ → M S (Unit {0})
  socket_destroy members = do
    call_on (nl.nl_cb_put members.1)
    call_on (nl.nl_socket_free members.0)

  -- RouteSocket() of src/route.cpp, which is a Socket for NETLINK_ROUTE
  unfoldable pub route_socket_make : (netlink_route : ℤ) → M S (ℕ × ℕ)
  unfolding socket_make
  route_socket_make netlink_route = socket_make netlink_route

  -- GenericSocket() of src/generic.cpp, which is one for NETLINK_GENERIC
  unfoldable pub generic_socket_make : (netlink_generic : ℤ) → M S (ℕ × ℕ)
  unfolding socket_make
  generic_socket_make netlink_generic = socket_make netlink_generic
