-- ===== src/Route/Attributes/Time.antt =====
-- The lifetimes of a RouteAddress, set and read back.
use nlcpp.Common.{
  ℕ, ◌≡◌, ◌<◌, ◌==◌, ◌^◌, ◌%◌, ◌+◌, ◌*◌, ◌∙◌, ◌↔◌, refl, ap, Option, none, some, arith,
  if◌then◌else◌,
}
use nlcpp.Common.Int.{ℤ, pos, negsuc}
use nlcpp.Common.Run.{ok, ◌>>◌}
use nlcpp.Exception.{Errno}
use nlcpp.Route.Fields.{IsStored}
use nlcpp.Route.Attributes.{
  RtnlAddr, to_uint32, valid_lifetime, set_valid_lifetime, preferred_lifetime,
  set_preferred_lifetime,
}

-- What is left of a number of seconds in 32 bits, where all ones stand for no end.
unfoldable pub kept : ℤ → Option ℕ
unfolding to_uint32
kept z = if to_uint32 z == 0xffff_ffff then none else some (to_uint32 z)

kept_small : (n : ℕ) → n < 0xffff_ffff → (kept (pos n) ≡ some n) × (to_uint32 (pos n) ≡ n)
unfolding kept to_uint32
kept_small n lt = (ground arith, omega arith)

kept_end :
    (n : ℕ)
    → (kept (pos (n * 2 ^ 32 + 0xffff_ffff)) ≡ none)
      × (to_uint32 (pos (n * 2 ^ 32 + 0xffff_ffff)) ≡ 0xffff_ffff)
unfolding kept to_uint32
kept_end n =
    let w : (n * 2 ^ 32 + 0xffff_ffff) % 2 ^ 32 ≡ 0xffff_ffff = omega arith in (rw w refl, w)

to_uint32-lt : (z : ℤ) → to_uint32 z < 2 ^ 32
unfolding to_uint32
to_uint32-lt (pos n) = omega arith
to_uint32-lt (negsuc n) = omega arith

kept-lt : (z : ℤ) (n : ℕ) → kept z ≡ some n → n < 0xffff_ffff
unfolding kept
kept-lt z n h = ground (arith, to_uint32-lt z)

-- A number of seconds that 32 bits hold, but for all ones.
abbrev pub InRange : ℤ → Type 0
InRange z = (n : ℕ) × (z ≡ pos n) × (n < 0xffff_ffff)

kept-InRange : (z : ℤ) → ((n : ℕ) × (z ≡ pos n) × (kept z ≡ some n)) ↔ InRange z
kept-InRange z = (
  (λ (n, same, read). (n, same, kept-lt z n read)),
  λ (n, same, lt). (n, same, ap kept same ∙ (kept_small n lt).0),
)

module _ {S Addr : Type 0} (e : Errno) (rt : RtnlAddr S Addr) where
  read-valid :
      (z : ℤ) (s : S)
      → IsStored rt.valid_lifetime_of
      → (set_valid_lifetime e rt z >> valid_lifetime e rt) s
        ≡ ok (kept z) (rt.valid_lifetime_of.set (to_uint32 z) s)
  unfolding set_valid_lifetime valid_lifetime kept
  read-valid z s h = rw h

  read-preferred :
      (z : ℤ) (s : S)
      → IsStored rt.preferred_lifetime_of
      → (set_preferred_lifetime e rt z >> preferred_lifetime e rt) s
        ≡ ok (kept z) (rt.preferred_lifetime_of.set (to_uint32 z) s)
  unfolding set_preferred_lifetime preferred_lifetime kept
  read-preferred z s h = rw h

  -- A lifetime of fewer than 0xFFFFFFFF seconds is read back as it was set, and libnl is handed it.
  lifetimes-roundtrip :
      (n : ℕ) (s : S)
      → IsStored rt.valid_lifetime_of
      → IsStored rt.preferred_lifetime_of
      → n < 0xffff_ffff
      → ((set_valid_lifetime e rt (pos n) >> valid_lifetime e rt) s
          ≡ ok (some n) (rt.valid_lifetime_of.set n s))
        × ((set_preferred_lifetime e rt (pos n) >> preferred_lifetime e rt) s
            ≡ ok (some n) (rt.preferred_lifetime_of.set n s))
  lifetimes-roundtrip n s hv hp lt =
      let k = kept_small n lt in
      (read-valid (pos n) s hv ∙ rw (k.0, k.1), read-preferred (pos n) s hp ∙ rw (k.0, k.1))

  same_word :
      (n : ℕ) (s : S)
      → set_valid_lifetime e rt (pos (n + 2 ^ 32)) s ≡ set_valid_lifetime e rt (pos n) s
  unfolding set_valid_lifetime to_uint32
  same_word n s =
      let w : (n + 2 ^ 32) % 2 ^ 32 ≡ n % 2 ^ 32 = omega arith in
      ap (λ v. ok tt (rt.valid_lifetime_of.set v s)) w

  -- A lifetime of 2^32 seconds more is set as if it were without them, and one that is 1
  -- second under a multiple of 2^32 as "for ever".
  lifetimes-wrap :
      (n : ℕ) (s : S)
      → IsStored rt.valid_lifetime_of
      → (set_valid_lifetime e rt (pos (n + 2 ^ 32)) s ≡ set_valid_lifetime e rt (pos n) s)
        × ((set_valid_lifetime e rt (pos (n * 2 ^ 32 + 0xffff_ffff)) >> valid_lifetime e rt) s
            ≡ ok none (rt.valid_lifetime_of.set 0xffff_ffff s))
  lifetimes-wrap n s h = (
    same_word n s,
    read-valid (pos (n * 2 ^ 32 + 0xffff_ffff)) s h ∙ rw ((kept_end n).0, (kept_end n).1) refl,
  )

  -- Either lifetime may be set to any number of seconds, also a negative one. Both are read back as the
  -- same number below 2^32 - 1, or as none; and it is the number that was set exactly where that
  -- is neither negative nor above 2^32 - 2.
  pub lifetimes_bounds :
      (z : ℤ) (s : S)
      → IsStored rt.valid_lifetime_of
      → IsStored rt.preferred_lifetime_of
      → (r : Option ℕ) × ((set_valid_lifetime e rt z >> valid_lifetime e rt) s
          ≡ ok r (rt.valid_lifetime_of.set (to_uint32 z) s))
        × ((set_preferred_lifetime e rt z >> preferred_lifetime e rt) s
            ≡ ok r (rt.preferred_lifetime_of.set (to_uint32 z) s))
        × ((n : ℕ) → r ≡ some n → n < 0xffff_ffff)
        × (((n : ℕ) × (z ≡ pos n) × (r ≡ some n)) ↔ InRange z)
  lifetimes_bounds z s hv hp =
      (kept z, read-valid z s hv, read-preferred z s hp, kept-lt z, kept-InRange z)
