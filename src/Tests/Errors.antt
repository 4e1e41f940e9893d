-- ===== src/Tests/Errors.antt =====
-- The error codes of libnl, and the theorems on errors at some of them.
use nlcpp.Common.{ℕ, ◌≡◌, ◌≢◌, refl, arith}
use nlcpp.Common.Int.{ℤ, pos, negsuc, abs}
use nlcpp.Common.Run.{Ends}
use nlcpp.Exception.{Errno, IsErrno, throw_code}
use nlcpp.Exception.Codes.{Tells, throw_code-Tells}
use nlcpp.Route.RouteSocket.{Rtnl}
use nlcpp.Route.RouteSocket.Answers.{
  Request, add_address_of, Answered, Failed, declined, function_name, answer, perform,
  perform-answer,
}

abbrev pub errno : Errno
errno = record {
  nle_success = 0;
  nle_noattr = 13;
  nle_missing_attr = 14;
  nle_noaddr = 19;
  nle_exist = 6;
  nle_nodev = 31;
  nle_obj_notfound = 12;
  geterror = λ z. "some error";
}

pub errno-IsErrno : IsErrno errno
errno-IsErrno = record {
  success_zero = refl;
  noattr_pos = omega arith;
  missing_attr_pos = omega arith;
  noaddr_pos = omega arith;
  exist_pos = omega arith;
  nodev_pos = omega arith;
  obj_notfound_pos = omega arith;
  noattr_missing = omega arith;
  noattr_noaddr = omega arith;
  missing_noaddr = omega arith;
}

abbrev no_address_code : ℤ
no_address_code = negsuc 18

throw_code-Tells_example :
    Ends {S = ℕ}
      (λ _ t. (t ≡ 7) × (abs no_address_code ≡ 0))
      (λ x t. (t ≡ 7) × (abs no_address_code ≢ 0) × Tells errno "call" (abs no_address_code) x)
      (throw_code errno "call" no_address_code 7)
throw_code-Tells_example = throw_code-Tells errno errno-IsErrno "call" 7 no_address_code (λ h. cc)

-- A kernel that has the address already, and no such link.
abbrev kernel : Rtnl ℕ ℕ ℕ ℕ
kernel = record {
  addr_add = λ a flags s. (negsuc 5, s);
  addr_delete = λ a flags s. (pos 0, s);
  link_add = λ a flags s. (pos 0, s);
  link_delete = λ a s. (negsuc 2, s);
  link_change = λ a b flags s. (pos 0, s);
  route_add = λ a flags s. (pos 0, s);
  route_delete = λ a flags s. (pos 0, s);
  nlm_f_create = 0x400;
  nlm_f_excl = 0x200;
}

abbrev add_one : Request ℕ ℕ ℕ
add_one = add_address_of 1

perform-answer_example :
    Ends
      (Answered (declined errno add_one) (answer kernel add_one 0).0 (answer kernel add_one 0).1)
      (Failed errno
        (function_name add_one)
        (declined errno add_one)
        (answer kernel add_one 0).0
        (answer kernel add_one 0).1)
      (perform kernel errno add_one 0)
unfolding answer
perform-answer_example = perform-answer errno errno-IsErrno kernel add_one 0 (λ h. cc)
