-- ===== src/Netlink/Address/Attributes.antt =====
-- The accessors of an Address of src/netlink.cpp, on the state `S` of its `nl_addr`. The functions of
-- libnl are parameters.
use nlcpp.Common.{ℕ, ◌^◌, ◌<◌, ◌≡◌, List, arith, ltb, Bool-cases, inl, inr}
use nlcpp.Common.Int.{ℤ}
use nlcpp.Common.Run.{M, ok, ◌>>◌}
use nlcpp.Generic.Attributes.{as_int}
use nlcpp.Route.Attributes.{to_uint32}
use nlcpp.Route.Fields.{PlainField, IsStored, change}

-- `address_bytes` are those from nl_addr_get_binary_addr on, nl_addr_get_len of them; `nl_addr2str`
-- writes no more than the given number of characters.
pub record NlAddr (S : Type 0) : Type 0 where
  pub nl_addr2str : S → (size : ℕ) → List ℕ
  pub family_of : PlainField S ℤ
  pub address_bytes : S → List ℕ
  pub prefixlen_of : PlainField S ℤ

module _ {S : Type 0} (nl : NlAddr S) where
  -- operator string
  unfoldable pub address_text : M S (List ℕ)
  address_text s = ok (nl.nl_addr2str s 256) s

  unfoldable pub address_family : M S ℤ
  address_family s = ok (nl.family_of.get s) s

  unfoldable pub set_address_family : ℤ → M S (Unit {0})
  unfolding change
  set_address_family family = change (nl.family_of.set family)

  unfoldable pub address_binary : M S (List ℕ)
  address_binary s = ok (nl.address_bytes s) s

  -- libnl's `int` is returned as an `unsigned int`, and set from one.
  unfoldable pub address_prefixlen : M S ℕ
  unfolding to_uint32
  address_prefixlen s = ok (to_uint32 (nl.prefixlen_of.get s)) s

  unfoldable pub set_address_prefixlen : ℕ → M S (Unit {0})
  unfolding change
  set_address_prefixlen prefixlen = change (nl.prefixlen_of.set (as_int prefixlen))

  to_uint32-as_int : (n : ℕ) → n < 2 ^ 32 → to_uint32 (as_int n) ≡ n
  unfolding to_uint32
  to_uint32-as_int n lt = elim (Bool-cases (ltb n (2 ^ 31))) [
    | inl small ↦ rw small (omega arith)
    | inr large ↦ rw large (omega arith)
  ]

  -- A length of a prefix of any 32-bit value is read back as it was set, through the `int` in which libnl
  -- keeps it.
  prefixlen-roundtrip :
      (n : ℕ) (s : S)
      → IsStored nl.prefixlen_of
      → n < 2 ^ 32
      → (set_address_prefixlen n >> address_prefixlen) s ≡ ok n (nl.prefixlen_of.set (as_int n) s)
  unfolding set_address_prefixlen address_prefixlen
  prefixlen-roundtrip n s h lt = rw (h, to_uint32-as_int n lt)
