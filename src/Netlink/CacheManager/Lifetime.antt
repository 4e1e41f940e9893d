-- ===== src/Netlink/CacheManager/Lifetime.antt =====
-- One CacheManager frees what it allocated.
use nlcpp.Common.{
  ℕ, ◌≡◌, ◌≢◌, refl, ◌∙◌, none, some, [], ◌∷◌, ◌++◌, arith, set, get_elem?-append, set-append_at,
}
use nlcpp.Common.Int.{ℤ, abs}
use nlcpp.Common.Run.{Ends, ◌>>=◌, ◌>>◌, Ends-then, Ends-map}
use nlcpp.Exception.{Errno, IsErrno, int_min, throw_code}
use nlcpp.Exception.Codes.{Tells, throw_code-then}
use nlcpp.Objects.Defs.{Ptr, Libnl, IsFresh, IsAllocator, World, construct}
use nlcpp.Objects.Rules.{Owned, IsLive, fresh-Owned}
use nlcpp.Objects.Handle.{destroy_object}
use nlcpp.Objects.Handle.Life.{Constructed, construct-ok, destroy_object-ok, Refused}
use nlcpp.Netlink.CacheManager.{ManagerCalls, manager_make, manager_destroy}

-- The documented behaviour of nl_cache_mngr_alloc: a fresh manager and success, or an error and no
-- manager.
abbrev pub IsMade : (l : Libnl) → l.Store → ℤ × (Ptr × l.Store) → Type 0
IsMade l s (err, (none, t)) = (abs err ≢ 0) × IsFresh l s (none, t)
IsMade l s (err, (some p, t)) = (abs err ≡ 0) × IsFresh l s (some p, t)

module _ {l : Libnl} (c : IsAllocator l) (ext : ℕ → ℕ) (w : World l) where
  -- A new object for what nl_cache_mngr_alloc gave, or the exception.
  made :
      (e : Errno) (he : IsErrno e) (r : ℤ × (Ptr × l.Store))
      → IsMade l w.store r
      → r.0 ≢ int_min
      → Owned ext w
      → Ends
          (Constructed ext w r.1.0)
          (λ x v.
            (abs r.0 ≢ 0) × Tells e "nl_cache_mngr_alloc failed" (abs r.0) x × Refused ext w v)
          ((throw_code e "nl_cache_mngr_alloc failed" r.0 >> construct r.1.0)
            (record w { store = r.1.1 }))
  made e he (err, (none, t)) (bad, same) h o =
      throw_code-then e he "nl_cache_mngr_alloc failed" (record w { store = t }) _ err h
        (λ z. absurd (bad z)) (λ x z told. (z, told, (refl, λ q. omega (arith, same q, o q))))
  made e he (err, (some p, t)) (good, fresh) h o =
      throw_code-then e he "nl_cache_mngr_alloc failed" (record w { store = t }) _ err h
        (λ z.
          Ends-map (λ _ v k. k) (λ x v k. absurd k)
            (construct-ok c ext (record w { store = t }) (some p)
              (fresh-Owned c ext w (some p, t) fresh o)))
        (λ x z told. absurd (z good))

  -- The place of an object that was just made.
  gone :
      (this : ℕ) (p : Ptr) (v : World l)
      → Constructed ext w p this v
      → set v.objects this none ≡ w.objects ++ (none ∷ [])
  gone this p v (place, objects, o) = rw (place, objects) (set-append_at w.objects (some p) none [])

  live : (this : ℕ) (p : Ptr) (v : World l) → Constructed ext w p this v → IsLive v this p
  live this p v (place, objects, o) = rw (place, objects) (get_elem?-append w.objects (some p) [])

  -- A CacheManager that is made and destroyed leaves no manager of libnl behind, and all else as it was.
  pub manager-life :
      (e : Errno) (he : IsErrno e) (nl : ManagerCalls l) (protocol : ℤ)
      → IsMade l w.store (nl.nl_cache_mngr_alloc protocol w.store)
      → (nl.nl_cache_mngr_alloc protocol w.store).0 ≢ int_min
      → Owned ext w
      → Ends
          (λ _ v. (v.objects ≡ w.objects ++ (none ∷ [])) × Owned ext v)
          (λ x v.
            (v.objects ≡ w.objects)
            × Owned ext v
            × Tells e "nl_cache_mngr_alloc failed"
                (abs (nl.nl_cache_mngr_alloc protocol w.store).0)
                x)
          ((manager_make e nl protocol >>= manager_destroy) w)
  unfolding manager_make manager_destroy destroy_object
  manager-life e he nl protocol h least o =
      let r = nl.nl_cache_mngr_alloc protocol w.store in
      Ends-then (made e he r h least o)
        (λ this v k.
          Ends-map (λ _ u j. (j.0 ∙ gone this r.1.0 v k, j.2)) (λ x u j. absurd j)
            (destroy_object-ok c ext v this r.1.0 (live this r.1.0 v k) k.2))
        (λ x v k. (k.2.0, k.2.1, k.1))
