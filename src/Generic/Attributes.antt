-- ===== src/Generic/Attributes.antt =====
-- The attributes of a generic netlink message, as libnl's functions on them give them.
use Prim.Native.String.{String}
use nlcpp.Common.{ℕ, ◌-◌, ◌^◌, ltb, if◌then◌else◌, Option, List}
use nlcpp.Common.Int.{ℤ, pos, negsuc}

-- `table` is what `nla_parse` leaves in the array for a stretch of attributes: the attribute of each
-- type, if there is one. `nested` are the steps of `nla_for_each_nested`, `content` the attributes
-- inside one, `bytes` its payload.
pub record NlAttr (Attrs Attr : Type 0) : Type 0 where
  pub table : Attrs → ℕ → Option Attr
  pub get_string : Attr → String
  pub get_u32 : Attr → ℕ
  pub get_u8 : Attr → ℕ
  pub nested : Attr → List Attr
  pub content : Attr → Attrs
  pub bytes : Attr → List ℕ

-- A `uint32_t` stored in an `int`.
abbrev pub as_int : ℕ → ℤ
as_int n = if ltb n (2 ^ 31) then pos n else negsuc (2 ^ 32 - 1 - n)
