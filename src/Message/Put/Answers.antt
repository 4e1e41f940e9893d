-- ===== src/Message/Put/Answers.antt =====
-- How a Message reports that an attribute was not put.
use Prim.Native.Nat.{◌%◌}
use Prim.Native.String.{String}
use nlcpp.Common.{ℕ, ◌≡◌, ◌≢◌, ◌^◌, refl, List, length}
use nlcpp.Common.Int.{ℤ, abs}
use nlcpp.Common.Run.{M, Ends}
use nlcpp.Exception.{Errno, IsErrno, int_min}
use nlcpp.Exception.Codes.{Tells, throw_code-Tells}
use nlcpp.Generic.Attributes.{as_int}
use nlcpp.Message.Put.{
  Nla, checked_put, put_data, put_vector, put_subrange, put_address, put_s8, put_u8, put_s16,
  put_u16, put_s32, put_u32, put_s64, put_u64, put_string, put_nested,
}

-- What may be put.
pub data Value (Addr Nested : Type 0) : Type 0 where
  data_of : (size : ℕ) → List ℕ → Value Addr Nested
  vector_of subrange_of : List ℕ → Value Addr Nested
  address_of : Addr → Value Addr Nested
  s8_of s16_of s32_of s64_of : ℤ → Value Addr Nested
  u8_of u16_of u32_of u64_of : ℕ → Value Addr Nested
  string_of : String → Value Addr Nested
  nested_of : Nested → Value Addr Nested

module _ {Addr Nested : Type 0} where
  -- The name of the member function.
  unfoldable pub member_name : Value Addr Nested → String
  member_name (data_of size xs) = "put"
  member_name (vector_of xs) = "put"
  member_name (subrange_of xs) = "put"
  member_name (address_of a) = "put"
  member_name (s8_of n) = "put_s8"
  member_name (u8_of n) = "put_u8"
  member_name (s16_of n) = "put_s16"
  member_name (u16_of n) = "put_u16"
  member_name (s32_of n) = "put_s32"
  member_name (u32_of n) = "put_u32"
  member_name (s64_of n) = "put_s64"
  member_name (u64_of n) = "put_u64"
  member_name (string_of str) = "put"
  member_name (nested_of n) = "put"

  module _ {S : Type 0} (nla : Nla S Addr Nested) (attrtype : ℤ) where
    -- What libnl does with the value.
    unfoldable pub put_answer : Value Addr Nested → S → ℤ × S
    put_answer (data_of size xs) = nla.nla_put attrtype (as_int (size % 2 ^ 32)) xs
    put_answer (vector_of xs) = nla.nla_put attrtype (as_int (length xs % 2 ^ 32)) xs
    put_answer (subrange_of xs) = nla.nla_put attrtype (as_int (length xs % 2 ^ 32)) xs
    put_answer (address_of a) = nla.nla_put_addr attrtype a
    put_answer (s8_of n) = nla.nla_put_s8 attrtype n
    put_answer (u8_of n) = nla.nla_put_u8 attrtype n
    put_answer (s16_of n) = nla.nla_put_s16 attrtype n
    put_answer (u16_of n) = nla.nla_put_u16 attrtype n
    put_answer (s32_of n) = nla.nla_put_s32 attrtype n
    put_answer (u32_of n) = nla.nla_put_u32 attrtype n
    put_answer (s64_of n) = nla.nla_put_s64 attrtype n
    put_answer (u64_of n) = nla.nla_put_u64 attrtype n
    put_answer (string_of str) = nla.nla_put_string attrtype str
    put_answer (nested_of n) = nla.nla_put_nested attrtype n

    unfoldable pub put_value : Errno → Value Addr Nested → M S (Unit {0})
    put_value e (data_of size xs) = put_data e nla attrtype size xs
    put_value e (vector_of xs) = put_vector e nla attrtype xs
    put_value e (subrange_of xs) = put_subrange e nla attrtype xs
    put_value e (address_of a) = put_address e nla attrtype a
    put_value e (s8_of n) = put_s8 e nla attrtype n
    put_value e (u8_of n) = put_u8 e nla attrtype n
    put_value e (s16_of n) = put_s16 e nla attrtype n
    put_value e (u16_of n) = put_u16 e nla attrtype n
    put_value e (s32_of n) = put_s32 e nla attrtype n
    put_value e (u32_of n) = put_u32 e nla attrtype n
    put_value e (s64_of n) = put_s64 e nla attrtype n
    put_value e (u64_of n) = put_u64 e nla attrtype n
    put_value e (string_of str) = put_string e nla attrtype str
    put_value e (nested_of n) = put_nested e nla attrtype n

module _ {S Addr Nested : Type 0} (e : Errno) (nla : Nla S Addr Nested) (attrtype : ℤ) where
  put_value-checked_put :
      (v : Value Addr Nested)
      → put_value nla attrtype e v ≡ checked_put e nla (member_name v) (put_answer nla attrtype v)
  unfolding put_value member_name put_answer put_data put_vector put_subrange put_address put_s8
      put_u8 put_s16 put_u16 put_s32 put_u32 put_s64 put_u64 put_string put_nested
  put_value-checked_put (data_of size xs) = refl
  put_value-checked_put (vector_of xs) = refl
  put_value-checked_put (subrange_of xs) = refl
  put_value-checked_put (address_of a) = refl
  put_value-checked_put (s8_of n) = refl
  put_value-checked_put (u8_of n) = refl
  put_value-checked_put (s16_of n) = refl
  put_value-checked_put (u16_of n) = refl
  put_value-checked_put (s32_of n) = refl
  put_value-checked_put (u32_of n) = refl
  put_value-checked_put (s64_of n) = refl
  put_value-checked_put (u64_of n) = refl
  put_value-checked_put (string_of str) = refl
  put_value-checked_put (nested_of n) = refl

  checked_put-Tells :
      (he : IsErrno e) (name : String) (f : S → ℤ × S) (s : S)
      → (f s).0 ≢ int_min
      → Ends
          (λ _ t. (t ≡ (f s).1) × (abs (f s).0 ≡ 0))
          (λ x t. (t ≡ (f s).1) × (abs (f s).0 ≢ 0) × Tells e name (abs (f s).0) x)
          (checked_put e nla name f s)
  unfolding checked_put
  checked_put-Tells he name f s h = throw_code-Tells e he name (f s).1 (f s).0 h

  -- Every `put` hands its value to the function of libnl for it, once, and leaves the message as
  -- libnl does. It returns exactly where libnl reports success, and else throws what tells the error
  -- under the name of the member function. The result is taken to be above the least `int`.
  pub put_value-Tells :
      (he : IsErrno e) (v : Value Addr Nested) (s : S)
      → (put_answer nla attrtype v s).0 ≢ int_min
      → Ends
          (λ _ t. (t ≡ (put_answer nla attrtype v s).1) × (abs (put_answer nla attrtype v s).0 ≡ 0))
          (λ x t.
            (t ≡ (put_answer nla attrtype v s).1)
            × (abs (put_answer nla attrtype v s).0 ≢ 0)
            × Tells e (member_name v) (abs (put_answer nla attrtype v s).0) x)
          (put_value nla attrtype e v s)
  put_value-Tells he v s h =
      rw (put_value-checked_put v)
        (checked_put-Tells he (member_name v) (put_answer nla attrtype v) s h)
