-- ===== src/Tests/Puts.antt =====
-- Attributes put into a message that has room for four.
use nlcpp.Common.{ℕ, ◌≡◌, ◌≢◌, ltb, if◌then◌else◌, ◌+◌}
use nlcpp.Common.Int.{ℤ, pos, negsuc, abs}
use nlcpp.Common.Run.{Ends}
use nlcpp.Exception.Codes.{Tells}
use nlcpp.Message.Put.{Nla}
use nlcpp.Message.Put.Answers.{Value, u32_of, member_name, put_answer, put_value, put_value-Tells}
use nlcpp.Tests.Errors.{errno, errno-IsErrno}

-- The state counts the attributes.
abbrev room : ℕ → ℤ × ℕ
room s = if ltb s 4 then (pos 0, s + 1) else (negsuc 4, s)

abbrev nla : Nla ℕ ℕ ℕ
nla = record {
  nla_put = λ t size xs. room;
  nla_put_addr = λ t v. room;
  nla_put_s8 = λ t v. room;
  nla_put_u8 = λ t v. room;
  nla_put_s16 = λ t v. room;
  nla_put_u16 = λ t v. room;
  nla_put_s32 = λ t v. room;
  nla_put_u32 = λ t v. room;
  nla_put_s64 = λ t v. room;
  nla_put_u64 = λ t v. room;
  nla_put_string = λ t v. room;
  nla_put_nested = λ t v. room;
}

abbrev value : Value ℕ ℕ
value = u32_of 7

-- A full message.
put_value-Tells_example :
    Ends
      (λ _ t.
        (t ≡ (put_answer nla (pos 3) value 4).1) × (abs (put_answer nla (pos 3) value 4).0 ≡ 0))
      (λ x t.
        (t ≡ (put_answer nla (pos 3) value 4).1)
        × (abs (put_answer nla (pos 3) value 4).0 ≢ 0)
        × Tells errno (member_name value) (abs (put_answer nla (pos 3) value 4).0) x)
      (put_value nla (pos 3) errno value 4)
unfolding put_answer
put_value-Tells_example = put_value-Tells errno nla (pos 3) errno-IsErrno value 4 (λ h. cc)
