-- ===== src/Exception.antt =====
-- src/exception.cpp and include/nlcpp/exception.h: the exception classes and the translation of
-- libnl's error codes. The codes of netlink/errno.h and the text of `nl_geterror` are parameters.
pub mod Codes
use Prim.Native.String.{String, ◌++◌}
use nlcpp.Common.{ℕ, ◌≡◌, ◌≢◌, ◌<◌, ◌==◌, if◌then◌else◌}
use nlcpp.Common.Int.{ℤ, pos, negsuc, abs, int_eq}
use nlcpp.Common.Run.{
  Run, M, Thrown, netlink, ExceptionClass, exception, attribute_not_available, missing_attribute,
  no_address, ok, pure, throw, undefined,
}

-- netlink/errno.h
pub record Errno : Type 0 where
  pub nle_success : ℕ
  pub nle_noattr : ℕ
  pub nle_missing_attr : ℕ
  pub nle_noaddr : ℕ
  pub nle_exist : ℕ
  pub nle_nodev : ℕ
  pub nle_obj_notfound : ℕ
  pub geterror : ℤ → String

-- The codes that the switch tells apart are different numbers, and success is 0.
pub record IsErrno (e : Errno) : Type 0 where
  pub success_zero : e.nle_success ≡ 0
  pub noattr_pos : 0 < e.nle_noattr
  pub missing_attr_pos : 0 < e.nle_missing_attr
  pub noaddr_pos : 0 < e.nle_noaddr
  pub exist_pos : 0 < e.nle_exist
  pub nodev_pos : 0 < e.nle_nodev
  pub obj_notfound_pos : 0 < e.nle_obj_notfound
  pub noattr_missing : e.nle_noattr ≢ e.nle_missing_attr
  pub noattr_noaddr : e.nle_noattr ≢ e.nle_noaddr
  pub missing_noaddr : e.nle_missing_attr ≢ e.nle_noaddr

-- The least value of a 32-bit `int`; `abs` of it is undefined.
abbrev pub int_min : ℤ
int_min = negsuc 0x7fff_ffff

-- Exception::Exception
pub new_exception : Errno → ExceptionClass → String → ℤ → Thrown
new_exception e cls prefix code = netlink cls code (prefix ++ ": " ++ e.geterror code)

pub new_attribute_not_available : Errno → String → Thrown
unfolding new_exception
new_attribute_not_available e prefix =
    new_exception e attribute_not_available prefix (pos e.nle_noattr)

pub new_missing_attribute : Errno → String → Thrown
unfolding new_exception
new_missing_attribute e prefix = new_exception e missing_attribute prefix (pos e.nle_missing_attr)

pub new_no_address : Errno → String → Thrown
unfolding new_exception
new_no_address e prefix = new_exception e no_address prefix (pos e.nle_noaddr)

-- Exception::throwCode
unfoldable pub throw_code {ℓ} : {S : Type ℓ} → Errno → String → ℤ → M S (Unit {0})
unfolding new_exception new_attribute_not_available new_missing_attribute new_no_address
throw_code e prefix value =
    if int_eq value int_min
    then undefined
    else (let code = abs value in
        if code == e.nle_success
        then pure tt
        else if code == e.nle_noattr
        then throw (new_attribute_not_available e prefix)
        else if code == e.nle_missing_attr
        then throw (new_missing_attribute e prefix)
        else if code == e.nle_noaddr
        then throw (new_no_address e prefix)
        else throw (new_exception e exception prefix (pos code)))
