-- ===== src/Route/Fields.antt =====
-- Attributes that libnl keeps in an object with the state `S`. An `nl_addr` is its pointer. The
-- functions of libnl are parameters.
pub mod Addresses
use Prim.Native.String.{String}
use nlcpp.Common.{ℕ, ◌≡◌, Option, none, some}
use nlcpp.Common.Int.{ℤ}
use nlcpp.Common.Run.{Run, M, ok, throws, runtime_error, ◌>>=◌, ◌>>◌, pure}
use nlcpp.Exception.{Errno, throw_code}

-- The functions of libnl that get and set an address; the setter takes a null pointer too.
pub record AddressField (S Addr : Type 0) : Type 0 where
  pub get : S → Option Addr
  pub set : Option Addr → S → ℤ × S

-- The functions that get and set any other attribute.
pub record PlainField (S A : Type 0) : Type 0 where
  pub get : S → A
  pub set : A → S → S

-- A getter of libnl reads what its setter has stored.
abbrev pub IsStored : {S A : Type 0} → PlainField S A → Type 0
IsStored {S} {A} f = (v : A) (s : S) → f.get (f.set v s) ≡ v

-- nl_addr_clone and nl_addr_put
pub record AddrCalls (S Addr : Type 0) : Type 0 where
  pub clone : Addr → S → Option Addr × S
  pub put : Addr → S → S

module _ {S : Type 0} where
  unfoldable pub change : (S → S) → M S (Unit {0})
  change f s = ok tt (f s)

module _ {S Addr : Type 0} where
  -- Address(const Address &), or Address(nl_addr *, CreateCopyFromPointer), after the clone
  unfoldable pub check_copy : Option Addr × S → Run S Addr
  check_copy (none, s) = throws (runtime_error "Failed to copy address") s
  check_copy (some p, s) = ok p s

module _ {S Addr : Type 0} (a : AddrCalls S Addr) where
  unfoldable pub copy_address : Addr → M S Addr
  unfolding check_copy
  copy_address ptr s = check_copy (a.clone ptr s)

  unfoldable pub copy_found : Option Addr → M S (Option Addr)
  unfolding copy_address
  copy_found none = pure none
  copy_found (some ptr) = copy_address ptr >>= λ p. pure (some p)

  -- The form of a getter of an address: the copy goes to the caller.
  unfoldable pub read_address : AddressField S Addr → M S (Option Addr)
  unfolding copy_found
  read_address f s = copy_found (f.get s) s

module _ {S Addr : Type 0} (e : Errno) (a : AddrCalls S Addr) where
  -- A setter of an address that may fail: the copy lives to the end of the call of libnl.
  unfoldable pub write_address : AddressField S Addr → String → Addr → M S (Unit {0})
  unfolding copy_address change throw_code
  write_address f prefix laddr = do
    p ← copy_address a laddr
    err ← λ s. ok (f.set (some p) s).0 (f.set (some p) s).1
    change (a.put p)
    throw_code e prefix err

  -- The same for an optional address.
  unfoldable pub write_optional_address :
      AddressField S Addr → String → Option Addr → M S (Unit {0})
  unfolding write_address throw_code
  write_optional_address f prefix (some laddr) = write_address f prefix laddr
  write_optional_address f prefix none = do
    err ← λ s. ok (f.set none s).0 (f.set none s).1
    throw_code e prefix err
