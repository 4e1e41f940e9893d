-- ===== src/Message/Put.antt =====
-- The attributes that a Message of src/message.cpp is given. The functions of libnl on the message's
-- contents `S` are parameters: the attribute's type and the value that they are handed. An address
-- and a nested message stand for themselves.
pub mod Answers
use Prim.Native.Nat.{◌%◌}
use Prim.Native.String.{String}
use nlcpp.Common.{ℕ, ◌^◌, List, length}
use nlcpp.Common.Int.{ℤ}
use nlcpp.Common.Run.{M, ok, ◌>>=◌}
use nlcpp.Exception.{Errno, throw_code}
use nlcpp.Generic.Attributes.{as_int}

-- A function `nla_put_X`: its result code and the message after it.
abbrev pub PutFunction : Type 0 → Type 0 → Type 0
PutFunction S A = ℤ → A → S → ℤ × S

pub record Nla (S Addr Nested : Type 0) : Type 0 where
  pub nla_put : ℤ → (size : ℤ) → List ℕ → S → ℤ × S
  pub nla_put_addr : PutFunction S Addr
  pub nla_put_s8 : PutFunction S ℤ
  pub nla_put_u8 : PutFunction S ℕ
  pub nla_put_s16 : PutFunction S ℤ
  pub nla_put_u16 : PutFunction S ℕ
  pub nla_put_s32 : PutFunction S ℤ
  pub nla_put_u32 : PutFunction S ℕ
  pub nla_put_s64 : PutFunction S ℤ
  pub nla_put_u64 : PutFunction S ℕ
  pub nla_put_string : PutFunction S String
  pub nla_put_nested : PutFunction S Nested

module _ {S Addr Nested : Type 0} (e : Errno) (nla : Nla S Addr Nested) where
  -- `int err = ...; Exception::throwCode(__FUNCTION__, err);`
  unfoldable pub checked_put : String → (S → ℤ × S) → M S (Unit {0})
  unfolding throw_code
  checked_put function f s = throw_code e function (f s).0 (f s).1

  -- put(int, size_t, const void *); the size becomes an `int`
  unfoldable pub put_data : ℤ → (size : ℕ) → List ℕ → M S (Unit {0})
  unfolding checked_put
  put_data attrtype size bytes =
      checked_put "put" (nla.nla_put attrtype (as_int (size % 2 ^ 32)) bytes)

  -- put(int, const vector<uint8_t> &)
  unfoldable pub put_vector : ℤ → List ℕ → M S (Unit {0})
  unfolding checked_put
  put_vector attrtype value =
      checked_put "put" (nla.nla_put attrtype (as_int (length value % 2 ^ 32)) value)

  -- put(int, const std::ranges::subrange<const uint8_t *> &)
  unfoldable pub put_subrange : ℤ → List ℕ → M S (Unit {0})
  unfolding checked_put
  put_subrange attrtype value =
      checked_put "put" (nla.nla_put attrtype (as_int (length value % 2 ^ 32)) value)

  -- put(int, const Address &)
  unfoldable pub put_address : ℤ → Addr → M S (Unit {0})
  unfolding checked_put
  put_address attrtype address = checked_put "put" (nla.nla_put_addr attrtype address)

  unfoldable pub put_s8 : ℤ → ℤ → M S (Unit {0})
  unfolding checked_put
  put_s8 attrtype value = checked_put "put_s8" (nla.nla_put_s8 attrtype value)

  unfoldable pub put_u8 : ℤ → ℕ → M S (Unit {0})
  unfolding checked_put
  put_u8 attrtype value = checked_put "put_u8" (nla.nla_put_u8 attrtype value)

  unfoldable pub put_s16 : ℤ → ℤ → M S (Unit {0})
  unfolding checked_put
  put_s16 attrtype value = checked_put "put_s16" (nla.nla_put_s16 attrtype value)

  unfoldable pub put_u16 : ℤ → ℕ → M S (Unit {0})
  unfolding checked_put
  put_u16 attrtype value = checked_put "put_u16" (nla.nla_put_u16 attrtype value)

  unfoldable pub put_s32 : ℤ → ℤ → M S (Unit {0})
  unfolding checked_put
  put_s32 attrtype value = checked_put "put_s32" (nla.nla_put_s32 attrtype value)

  unfoldable pub put_u32 : ℤ → ℕ → M S (Unit {0})
  unfolding checked_put
  put_u32 attrtype value = checked_put "put_u32" (nla.nla_put_u32 attrtype value)

  unfoldable pub put_s64 : ℤ → ℤ → M S (Unit {0})
  unfolding checked_put
  put_s64 attrtype value = checked_put "put_s64" (nla.nla_put_s64 attrtype value)

  unfoldable pub put_u64 : ℤ → ℕ → M S (Unit {0})
  unfolding checked_put
  put_u64 attrtype value = checked_put "put_u64" (nla.nla_put_u64 attrtype value)

  -- put(int, const string &)
  unfoldable pub put_string : ℤ → String → M S (Unit {0})
  unfolding checked_put
  put_string attrtype value = checked_put "put" (nla.nla_put_string attrtype value)

  -- put(int, const Message &)
  unfoldable pub put_nested : ℤ → Nested → M S (Unit {0})
  unfolding checked_put
  put_nested attrtype nested = checked_put "put" (nla.nla_put_nested attrtype nested)
