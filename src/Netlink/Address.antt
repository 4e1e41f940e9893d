-- ===== src/Netlink/Address.antt =====
-- Address of src/netlink.cpp: the life of its objects, each with a counted reference to one
-- `nl_addr`. `nl_addr_parse` is a parameter.
pub mod Lifetime
pub mod Attributes
use Prim.Native.String.{String, ◌++◌}
use nlcpp.Common.{ℕ, ◌≡◌, ◌≢◌, ◌==◌, if◌then◌else◌, not, none, false}
use nlcpp.Common.Int.{ℤ, pos}
use nlcpp.Common.Run.{M, ok, runtime_error, ◌>>=◌, ◌>>◌, pure, throw, when}
use nlcpp.Exception.{Errno, throw_code}
use nlcpp.Objects.Defs.{
  Ptr, Libnl, IsFresh, World, is_null, member, set_member, construct, end_lifetime, call_clone,
  call_get, call_put,
}

-- nl_addr_parse(str, family, &addr): the error code, and the address that it allocated.
abbrev pub Parse : Libnl → Type 0
Parse l = String → ℤ → l.Store → ℤ × (Ptr × l.Store)

-- It allocates exactly if it succeeds.
pub record IsParse (l : Libnl) (parse : Parse l) : Type 0 where
  pub fresh : (str : String) (family : ℤ) (s : l.Store) → IsFresh l s (parse str family s).1
  pub success :
      (str : String) (family : ℤ) (s : l.Store)
      → (parse str family s).0 ≡ pos 0
      → is_null (parse str family s).1.0 ≡ false
  pub failure :
      (str : String) (family : ℤ) (s : l.Store)
      → (parse str family s).0 ≢ pos 0
      → (parse str family s).1.0 ≡ none

module _ {l : Libnl} where
  -- Address(nl_addr *, CreateCopyFromPointer)
  unfoldable pub address_clone : Ptr → M (World l) ℕ
  unfolding call_clone construct
  address_clone ptr = do
    addr ← call_clone ptr
    if is_null addr then throw (runtime_error "Failed to copy address") else construct addr

  -- Address(nl_addr *), deprecated
  unfoldable pub address_from : Ptr → M (World l) ℕ
  unfolding address_clone
  address_from ptr = address_clone ptr

  -- Address(nl_addr *, TakeOwnershipOfPointer)
  unfoldable pub address_take : Ptr → M (World l) ℕ
  unfolding construct
  address_take ptr = construct ptr

  -- Address(nl_addr *, ShareOwnershipOfPointer)
  unfoldable pub address_share : Ptr → M (World l) ℕ
  unfolding call_get construct
  address_share ptr = do when (not (is_null ptr)) (call_get ptr); construct ptr

  unfoldable pub call_parse : Parse l → String → ℤ → M (World l) (ℤ × Ptr)
  call_parse parse str family w =
      ok ((parse str family w.store).0, (parse str family w.store).1.0)
        (record w { store = (parse str family w.store).1.1 })

  -- Address(const string &, int family); when it throws there is no object to destroy.
  unfoldable pub address_parse : Errno → Parse l → String → ℤ → M (World l) ℕ
  unfolding call_parse throw_code construct
  address_parse e parse str family = do
    (err, addr) ← call_parse parse str family
    throw_code e ("Failed to parse address \"" ++ str ++ "\": ") err
    construct addr

  -- Address(const Address &)
  unfoldable pub address_copy : ℕ → M (World l) ℕ
  unfolding member call_clone construct
  address_copy other = do
    ptr ← member other
    addr ← call_clone ptr
    if is_null addr then throw (runtime_error "Failed to copy address") else construct addr

  -- operator=(const Address &)
  unfoldable pub address_copy_assign : ℕ → ℕ → M (World l) ℕ
  unfolding member call_put call_clone set_member
  address_copy_assign this other = if this == other then pure this else do
    old ← member this
    call_put old
    ptr ← member other
    addr ← call_clone ptr
    set_member this addr
    pure this

  -- Address(Address &&)
  unfoldable pub address_move : ℕ → M (World l) ℕ
  unfolding member construct set_member
  address_move other = do
    addr ← member other
    this ← construct addr
    set_member other none
    pure this

  -- operator=(Address &&)
  unfoldable pub address_move_assign : ℕ → ℕ → M (World l) ℕ
  unfolding member call_put set_member
  address_move_assign this other = if this == other then pure this else do
    old ← member this
    call_put old
    addr ← member other
    set_member this addr
    set_member other none
    pure this

  -- ~Address()
  unfoldable pub address_destroy : ℕ → M (World l) (Unit {0})
  unfolding member call_put end_lifetime
  address_destroy this = do addr ← member this; call_put addr; end_lifetime this
