-- ===== src/Exception/Codes.antt =====
-- What `Exception::throwCode` does with each error code.
use Prim.Native.String.{String, ◌++◌}
use nlcpp.Common.{ℕ, ◌≡◌, ◌≢◌, ◌↔◌, refl, false, arith, ◌==◌, if◌then◌else◌, ℕ_discrete}
use nlcpp.Common.Int.{ℤ, pos, negsuc, abs, int_eq}
use nlcpp.Common.Run.{
  Ends, returns, raises, Thrown, netlink, ExceptionClass, exception, attribute_not_available,
  missing_attribute, no_address, ok, throws, M, ◌>>◌,
}
use nlcpp.Exception.{Errno, IsErrno, int_min, throw_code}

-- The exception tells the error `n`: its code, its message, and the class that the code asks for.
pub record Tells (e : Errno) (prefix : String) (n : ℕ) (t : Thrown) : Type 0 where
  pub cls : ExceptionClass
  pub shape : t ≡ netlink cls (pos n) (prefix ++ ": " ++ e.geterror (pos n))
  pub is_noattr : (cls ≡ attribute_not_available) ↔ (n ≡ e.nle_noattr)
  pub is_missing : (cls ≡ missing_attribute) ↔ (n ≡ e.nle_missing_attr)
  pub is_noaddr : (cls ≡ no_address) ↔ (n ≡ e.nle_noaddr)

int_eq_ne : (a b : ℤ) → a ≢ b → int_eq a b ≡ false
int_eq_ne (pos a) (pos b) h = ground arith
int_eq_ne (pos a) (negsuc b) h = refl
int_eq_ne (negsuc a) (pos b) h = refl
int_eq_ne (negsuc a) (negsuc b) h = ground arith

class_of : Errno → ℕ → ExceptionClass
class_of e n =
    if n == e.nle_noattr
    then attribute_not_available
    else if n == e.nle_missing_attr
    then missing_attribute
    else if n == e.nle_noaddr
    then no_address
    else exception

message : Errno → String → ℕ → Thrown
unfolding class_of
message e prefix n = netlink (class_of e n) (pos n) (prefix ++ ": " ++ e.geterror (pos n))

message-Tells :
    (e : Errno) → IsErrno e → (prefix : String) (n : ℕ) → Tells e prefix n (message e prefix n)
unfolding message
message-Tells e he prefix n = record {
  cls = class_of e n;
  shape = refl;
  is_noattr = ground arith;
  is_missing = ground arith;
  is_noaddr = ground arith;
}

module _ {ℓ} {S : Type ℓ} (e : Errno) (prefix : String) (s : S) where
  pub throw_code-success :
      (code : ℤ) → code ≢ int_min → abs code ≡ e.nle_success → throw_code e prefix code s ≡ ok tt s
  unfolding throw_code
  throw_code-success code h z = rw (int_eq_ne code int_min h) (ground arith)

  throw_code-message :
      (code : ℤ)
      → code ≢ int_min
      → abs code ≢ e.nle_success
      → throw_code e prefix code s ≡ throws (message e prefix (abs code)) s
  unfolding throw_code message
  throw_code-message code h z = rw (int_eq_ne code int_min h) (ground arith)

module _ {ℓ} {S : Type ℓ} (e : Errno) (he : IsErrno e) (prefix : String) (s : S) where
  -- `throwCode` has a defined result on every `int` but the least one. It returns exactly on
  -- success, and else throws the exception that tells the absolute value of the code.
  pub throw_code-Tells :
      (code : ℤ)
      → code ≢ int_min
      → Ends
          (λ _ t. (t ≡ s) × (abs code ≡ 0))
          (λ x t. (t ≡ s) × (abs code ≢ 0) × Tells e prefix (abs code) x)
          (throw_code e prefix code s)
  throw_code-Tells code h = elim (ℕ_discrete (abs code) e.nle_success) [
    | yes z ↦
        rw (throw_code-success e prefix s code h z) (returns (refl, omega (arith, he.success_zero)))
    | no z ↦
        rw (throw_code-message e prefix s code h z)
          (raises (refl, omega (arith, he.success_zero), message-Tells e he prefix (abs code)))
  ]

  -- What follows a check of a code: it runs on success, and the exception passes it by.
  pub throw_code-then {κ μ} :
      {A : Type κ} {P : A → S → Type μ} {Q : Thrown → S → Type μ} (k : M S A) (code : ℤ)
      → code ≢ int_min
      → (abs code ≡ 0 → Ends P Q (k s))
      → ((x : Thrown) → abs code ≢ 0 → Tells e prefix (abs code) x → Q x s)
      → Ends P Q ((throw_code e prefix code >> k) s)
  throw_code-then k code h good bad = elim (ℕ_discrete (abs code) e.nle_success) [
    | yes z ↦ rw (throw_code-success e prefix s code h z) (good (omega (arith, he.success_zero)))
    | no z ↦
        rw (throw_code-message e prefix s code h z)
          (raises (bad _ (omega (arith, he.success_zero)) (message-Tells e he prefix (abs code))))
  ]
