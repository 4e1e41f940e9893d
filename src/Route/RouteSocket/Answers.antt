-- ===== src/Route/RouteSocket/Answers.antt =====
-- How RouteSocket reports the kernel's answer to each request.
use Prim.Native.Nat.{bit_or}
use Prim.Native.String.{String}
use nlcpp.Common.{
  ℕ, ◌≡◌, ◌≢◌, inl, inr, refl, ap, Bool, true, false, Option, none, some, arith, if◌then◌else◌,
  Bool-cases,
}
use nlcpp.Common.Int.{ℤ, pos, negsuc, neg, abs, int_eq}
use nlcpp.Common.Run.{M, Thrown, Ends, returns, ◌>>◌, pure}
use nlcpp.Exception.{Errno, IsErrno, int_min, throw_code}
use nlcpp.Exception.Codes.{Tells, throw_code-then}
use nlcpp.Route.RouteSocket.{
  Rtnl, add_address, del_address, add_link, del_link, change_link, add_route, del_route,
}

pub data Request (Addr Link Route : Type 0) : Type 0 where
  add_address_of del_address_of : Addr → Request Addr Link Route
  add_link_of del_link_of : Link → Request Addr Link Route
  change_link_of : (orig changes : Link) → Request Addr Link Route
  add_route_of del_route_of : Route → Request Addr Link Route

module _ {Addr Link Route : Type 0} where
  -- The error that a request reports as `false`, if there is one.
  unfoldable pub declined : Errno → Request Addr Link Route → Option ℕ
  declined e (add_address_of a) = some e.nle_exist
  declined e (del_address_of a) = some e.nle_noaddr
  declined e (add_link_of l) = some e.nle_exist
  declined e (del_link_of l) = some e.nle_nodev
  declined e (change_link_of o c) = none
  declined e (add_route_of r) = some e.nle_exist
  declined e (del_route_of r) = some e.nle_obj_notfound

  -- The function of libnl behind a request.
  unfoldable pub function_name : Request Addr Link Route → String
  function_name (add_address_of a) = "rtnl_addr_add failed"
  function_name (del_address_of a) = "rtnl_addr_delete failed"
  function_name (add_link_of l) = "rtnl_link_add failed"
  function_name (del_link_of l) = "rtnl_link_delete failed"
  function_name (change_link_of o c) = "rtnl_link_change failed"
  function_name (add_route_of r) = "rtnl_route_add failed"
  function_name (del_route_of r) = "rtnl_route_delete failed"

  module _ {S : Type 0} (rt : Rtnl S Addr Link Route) where
    -- The kernel's answer. A new link is created and must not exist; nor may a new route.
    unfoldable pub answer : Request Addr Link Route → S → ℤ × S
    answer (add_address_of a) = rt.addr_add a 0
    answer (del_address_of a) = rt.addr_delete a 0
    answer (add_link_of l) = rt.link_add l (bit_or rt.nlm_f_create rt.nlm_f_excl)
    answer (del_link_of l) = rt.link_delete l
    answer (change_link_of o c) = rt.link_change o c 0
    answer (add_route_of r) = rt.route_add r rt.nlm_f_excl
    answer (del_route_of r) = rt.route_delete r 0

    unfoldable pub perform : Errno → Request Addr Link Route → M S Bool
    perform e (add_address_of a) = add_address e rt a
    perform e (del_address_of a) = del_address e rt a
    perform e (add_link_of l) = add_link e rt l
    perform e (del_link_of l) = del_link e rt l
    perform e (change_link_of o c) = change_link e rt o c
    perform e (add_route_of r) = add_route e rt r
    perform e (del_route_of r) = del_route e rt r

-- `err` is the negated error that the request declines by.
abbrev pub Declines : Option ℕ → ℤ → Type 0
Declines none err = ⊥
Declines (some n) err = err ≡ neg n

-- The answer `err` as a result, and as an exception.
abbrev pub Answered {ℓ} : {S : Type ℓ} → Option ℕ → ℤ → S → Bool → S → Type ℓ
Answered d err t true v = (v ≡ t) × (abs err ≡ 0)
Answered d err t false v = (v ≡ t) × Declines d err

abbrev pub Failed {ℓ} : {S : Type ℓ} → Errno → String → Option ℕ → ℤ → S → Thrown → S → Type ℓ
Failed e name d err t x v = (v ≡ t) × (¬ Declines d err) × (abs err ≢ 0) × Tells e name (abs err) x

int_eq_sound : (a b : ℤ) → int_eq a b ≡ true → a ≡ b
int_eq_sound (pos a) (pos b) h = ap pos (ground arith)
int_eq_sound (pos a) (negsuc b) h = cc
int_eq_sound (negsuc a) (pos b) h = cc
int_eq_sound (negsuc a) (negsuc b) h = ap negsuc (ground arith)

int_eq_refl : (a : ℤ) → int_eq a a ≡ true
int_eq_refl (pos a) = ground arith
int_eq_refl (negsuc a) = ground arith

module _ {S : Type 0} (e : Errno) (he : IsErrno e) where
  checked :
      (name : String) (d : Option ℕ) (err : ℤ) (t : S)
      → err ≢ int_min
      → ¬ Declines d err
      → Ends (Answered d err t) (Failed e name d err t) ((throw_code e name err >> pure true) t)
  checked name d err t h nd =
      throw_code-then e he name t (pure true) err h (λ z. returns (refl, z))
        (λ x nz tells. (refl, nd, nz, tells))

  declining :
      (name : String) (n : ℕ) (err : ℤ) (t : S)
      → err ≢ int_min
      → Ends
          (Answered (some n) err t)
          (Failed e name (some n) err t)
          ((if int_eq err (neg n) then pure false else (throw_code e name err >> pure true)) t)
  declining name n err t h = elim (Bool-cases (int_eq err (neg n))) [
    | inl same ↦ rw same (returns (refl, int_eq_sound err (neg n) same))
    | inr other ↦ rw other (
        checked name (some n) err t h
          λ d. cc (other, ap (λ z. int_eq z (neg n)) d, int_eq_refl (neg n)))
  ]

module _ {S Addr Link Route : Type 0} (e : Errno) (he : IsErrno e)
    (rt : Rtnl S Addr Link Route) where
  -- Every request of `RouteSocket` puts the kernel's answer into exactly one of three forms: `true`
  -- where it is success, `false` where it is the one error that the request declines by, and else
  -- the exception that tells the error behind the name of the function. The kernel's state is the
  -- one that the answer came with.
  pub perform-answer :
      (r : Request Addr Link Route) (s : S)
      → (answer rt r s).0 ≢ int_min
      → Ends
          (Answered (declined e r) (answer rt r s).0 (answer rt r s).1)
          (Failed e (function_name r) (declined e r) (answer rt r s).0 (answer rt r s).1)
          (perform rt e r s)
  unfolding answer perform declined function_name add_address del_address add_link del_link
      change_link add_route del_route
  perform-answer (add_address_of a) s h = declining e he _ e.nle_exist _ _ h
  perform-answer (del_address_of a) s h = declining e he _ e.nle_noaddr _ _ h
  perform-answer (add_link_of l) s h = declining e he _ e.nle_exist _ _ h
  perform-answer (del_link_of l) s h = declining e he _ e.nle_nodev _ _ h
  perform-answer (change_link_of o c) s h = checked e he _ none _ _ h (λ d. d)
  perform-answer (add_route_of r) s h = declining e he _ e.nle_exist _ _ h
  perform-answer (del_route_of r) s h = declining e he _ e.nle_obj_notfound _ _ h
