-- ===== src/Common/Run.antt =====
-- What a call does to a state: it returns, throws, or has undefined behaviour.
use mathlib.Core.Bool.{Bool, true, false}
use Prim.Native.String.{String}
use nlcpp.Common.Int.{ℤ}
use mathlib.Core.Option.{Option, none, some}
use mathlib.Core.Path.{◌≡◌, refl, ap}

-- The exception classes of nlcpp/exception.h.
pub data ExceptionClass : Type 0 where
  exception attribute_not_available missing_attribute no_address : ExceptionClass

-- What a run ends with other than by returning: an `nl::Exception` with its members, a
-- `std::runtime_error`, an exception over a text that is no number or no address, or `exit`, which
-- nothing catches.
pub data Thrown : Type 0 where
  netlink : ExceptionClass → (error : ℤ) → (msg : String) → Thrown
  runtime_error : String → Thrown
  bad_argument : Thrown
  exit_program : (status : ℤ) → Thrown

pub data Run {ℓ κ} (S : Type ℓ) (A : Type κ) : Type (ℓ ⊔ κ) where
  ok : A → S → Run S A
  throws : Thrown → S → Run S A
  fault : Run S A

abbrev pub M {ℓ κ} : Type ℓ → Type κ → Type (ℓ ⊔ κ)
M S A = S → Run S A

module _ {ℓ κ} {S : Type ℓ} {A : Type κ} where
  abbrev pub and_then {μ} : {B : Type μ} → Run S A → (A → M S B) → Run S B
  and_then (ok a s) f = f a s
  and_then (throws e s) f = throws e s
  and_then fault f = fault

  infixl 5 ◌>>=◌
  abbrev pub ◌>>=◌ {μ} : {B : Type μ} → M S A → (A → M S B) → M S B
  ◌>>=◌ m f s = and_then (m s) f

  abbrev pub pure : A → M S A
  pure a s = ok a s

  abbrev pub throw : Thrown → M S A
  throw e s = throws e s

  abbrev pub undefined : M S A
  undefined s = fault

-- A run that has no undefined behaviour, returns only where `P` holds and throws only where `Q`
-- holds.
pub data Ends {ℓ κ μ} {S : Type ℓ} {A : Type κ} (P : A → S → Type μ) (Q : Thrown → S → Type μ)
    : Run S A → Type (ℓ ⊔ κ ⊔ μ) where
  returns : {a : A} {s : S} → P a s → Ends P Q (ok a s)
  raises : {e : Thrown} {s : S} → Q e s → Ends P Q (throws e s)

infixl 5 ◌>>◌
abbrev pub ◌>>◌ {ℓ κ} : {S : Type ℓ} {B : Type κ} → M S (Unit {0}) → M S B → M S B
m >> k = m >>= λ _. k

abbrev pub when {ℓ} : {S : Type ℓ} → Bool → M S (Unit {0}) → M S (Unit {0})
when true m s = m s
when false m s = ok tt s

-- A run that ends well also ends well for what follows from that.
pub Ends-map {ℓ κ μ} :
    {S : Type ℓ} {A : Type κ} {P P' : A → S → Type μ} {Q Q' : Thrown → S → Type μ} {r : Run S A}
    → ((a : A) (s : S) → P a s → P' a s)
    → ((e : Thrown) (s : S) → Q e s → Q' e s)
    → Ends P Q r
    → Ends P' Q' r
Ends-map f g (returns p) = returns (f _ _ p)
Ends-map f g (raises q) = raises (g _ _ q)

-- What follows a run that ends well.
pub Ends-then {ℓ κ κ' μ ν} :
    {S : Type ℓ} {A : Type κ} {B : Type κ'} {P : A → S → Type μ} {Q : Thrown → S → Type μ}
    {P' : B → S → Type ν} {Q' : Thrown → S → Type ν} {r : Run S A} {k : A → M S B}
    → Ends P Q r
    → ((a : A) (s : S) → P a s → Ends P' Q' (k a s))
    → ((e : Thrown) (s : S) → Q e s → Q' e s)
    → Ends P' Q' (and_then r k)
Ends-then (returns p) f g = f _ _ p
Ends-then (raises q) f g = raises (g _ _ q)

-- What follows a call that returns.
pub after_ok {ℓ κ μ} :
    {S : Type ℓ} {A : Type κ} {B : Type μ} {r : Run S A} {a : A} {s : S} (f : A → M S B)
    → r ≡ ok a s
    → and_then r f ≡ f a s
after_ok f h = ap (λ x. and_then x f) h

-- A run with a handler of its exceptions.
abbrev pub attempt {ℓ κ μ} :
    {S : Type ℓ} {A : Type κ} {B : Type μ} → Run S A → (A → M S B) → (Thrown → M S B) → Run S B
attempt (ok a s) k h = k a s
attempt (throws e s) k h = h e s
attempt fault k h = fault

pub Ends-attempt {ℓ κ κ' μ ν} :
    {S : Type ℓ} {A : Type κ} {B : Type κ'} {P : A → S → Type μ} {Q : Thrown → S → Type μ}
    {P' : B → S → Type ν} {Q' : Thrown → S → Type ν} {r : Run S A} {k : A → M S B}
    {h : Thrown → M S B}
    → Ends P Q r
    → ((a : A) (s : S) → P a s → Ends P' Q' (k a s))
    → ((e : Thrown) (s : S) → Q e s → Ends P' Q' (h e s))
    → Ends P' Q' (attempt r k h)
Ends-attempt (returns p) f g = f _ _ p
Ends-attempt (raises q) f g = g _ _ q

-- The state after a call whose exception, if any, is caught; `none` if the call is undefined.
abbrev pub after_run {ℓ} : {S : Type 0} {A : Type ℓ} → Run S A → Option S
after_run (ok a s) = some s
after_run (throws e s) = some s
after_run fault = none

-- A run that leaves a good state behind, however it ends.
pub Ends-after {ℓ κ} :
    {S : Type 0} {A : Type ℓ} {G : S → Type κ} {r : Run S A}
    → Ends (λ _ s. G s) (λ _ s. G s) r
    → (s : S) × (after_run r ≡ some s) × G s
Ends-after (returns {a} {s} g) = (s, refl, g)
Ends-after (raises {e} {s} g) = (s, refl, g)

-- What holds if a run returns; it may also throw or be undefined.
abbrev pub IfOk {ℓ κ} : {S : Type ℓ} {A : Type κ} → (A → S → Type 0) → Run S A → Type 0
IfOk P (ok a s) = P a s
IfOk P (throws e s) = Unit {0}
IfOk P fault = Unit {0}

pub IfOk-then {ℓ κ μ} :
    {S : Type ℓ} {A : Type κ} {B : Type μ} (P : A → S → Type 0) (P' : B → S → Type 0) (r : Run S A)
    (k : A → M S B)
    → IfOk P r
    → ((a : A) (s : S) → P a s → IfOk P' (k a s))
    → IfOk P' (and_then r k)
IfOk-then P P' (ok a s) k h f = f a s h
IfOk-then P P' (throws e s) k h f = tt
IfOk-then P P' fault k h f = tt

pub Ends-IfOk {ℓ κ} :
    {S : Type ℓ} {A : Type κ} {P : A → S → Type 0} {Q : Thrown → S → Type 0} {r : Run S A}
    → Ends P Q r
    → IfOk P r
Ends-IfOk (returns p) = p
Ends-IfOk (raises q) = tt
