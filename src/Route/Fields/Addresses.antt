-- ===== src/Route/Fields/Addresses.antt =====
-- What the getters and setters of addresses do, failures included.
use Prim.Native.String.{String}
use nlcpp.Common.{◌≡◌, ◌≢◌, refl, Option, none, some}
use nlcpp.Common.Int.{abs}
use nlcpp.Common.Run.{M, and_then, Ends, Ends-map, returns, raises, Thrown, runtime_error, pure}
use nlcpp.Exception.{Errno, IsErrno, int_min, throw_code}
use nlcpp.Exception.Codes.{Tells, throw_code-Tells}
use nlcpp.Route.Fields.{
  AddressField, AddrCalls, check_copy, copy_found, copy_address, change, read_address,
  write_address,
}

module _ {S Addr : Type 0} where
  -- The address was cloned, stored by libnl without an error, and the clone put.
  abbrev pub Stored : AddrCalls S Addr → AddressField S Addr → Option Addr × S → S → Type 0
  Stored rt f (none, s) t = ⊥
  Stored rt f (some p, s) t = (abs (f.set (some p) s).0 ≡ 0) × (t ≡ rt.put p (f.set (some p) s).1)

  -- The clone failed, or it was put and the exception tells the error of libnl.
  abbrev pub NotStored :
      Errno
      → AddrCalls S Addr
      → AddressField S Addr
      → String
      → Option Addr × S
      → Thrown
      → S
      → Type 0
  NotStored e rt f name (none, s) x t = (x ≡ runtime_error "Failed to copy address") × (t ≡ s)
  NotStored e rt f name (some p, s) x t =
      (t ≡ rt.put p (f.set (some p) s).1)
      × (abs (f.set (some p) s).0 ≢ 0)
      × Tells e name (abs (f.set (some p) s).0) x

  -- What a getter returns and throws, with no address or a clone of it.
  abbrev pub Read : Option Addr → AddrCalls S Addr → S → Option Addr → S → Type 0
  Read none rt s a t = (a ≡ none) × (t ≡ s)
  Read (some ptr) rt s none t = ⊥
  Read (some ptr) rt s (some p) t = rt.clone ptr s ≡ (some p, t)

  abbrev pub NotRead : Option Addr → AddrCalls S Addr → S → Thrown → S → Type 0
  NotRead none rt s x t = ⊥
  NotRead (some ptr) rt s x t =
      (x ≡ runtime_error "Failed to copy address") × (rt.clone ptr s ≡ (none, t))

module _ {S Addr : Type 0} (rt : AddrCalls S Addr) where
  copy-Read :
      (ptr : Addr) (s : S) (c : Option Addr × S)
      → rt.clone ptr s ≡ c
      → Ends
          (Read (some ptr) rt s)
          (NotRead (some ptr) rt s)
          (and_then (check_copy c) (λ p. pure (some p)))
  unfolding check_copy
  copy-Read ptr s (none, t) h = raises (refl, h)
  copy-Read ptr s (some p, t) h = returns h

  -- What a copy gives: a clone, or the exception.
  copied-Copied :
      (ptr : Addr) (s : S) (c : Option Addr × S)
      → rt.clone ptr s ≡ c
      → Ends
          (λ p t. rt.clone ptr s ≡ (some p, t))
          (λ x t. (x ≡ runtime_error "Failed to copy address") × (rt.clone ptr s ≡ (none, t)))
          (check_copy c)
  unfolding check_copy
  copied-Copied ptr s (none, t) h = raises (refl, h)
  copied-Copied ptr s (some p, t) h = returns h

  pub copy-Copied :
      (ptr : Addr) (s : S)
      → Ends
          (λ p t. rt.clone ptr s ≡ (some p, t))
          (λ x t. (x ≡ runtime_error "Failed to copy address") × (rt.clone ptr s ≡ (none, t)))
          (copy_address rt ptr s)
  unfolding copy_address
  copy-Copied ptr s = copied-Copied ptr s (rt.clone ptr s) refl

  found-Read : (s : S) (o : Option Addr) → Ends (Read o rt s) (NotRead o rt s) (copy_found rt o s)
  unfolding copy_found copy_address
  found-Read s none = returns (refl, refl)
  found-Read s (some ptr) = copy-Read ptr s (rt.clone ptr s) refl

  pub read_address-Read :
      (f : AddressField S Addr) (s : S)
      → Ends (Read (f.get s) rt s) (NotRead (f.get s) rt s) (read_address rt f s)
  unfolding read_address
  read_address-Read f s = found-Read s (f.get s)

module _ {S Addr : Type 0} (e : Errno) (rt : AddrCalls S Addr) where
  unfoldable after_copy : AddressField S Addr → String → Addr → M S (Unit {0})
  after_copy f name p s = throw_code e name (f.set (some p) s).0 (rt.put p (f.set (some p) s).1)

  copied-Stored :
      (he : IsErrno e) (f : AddressField S Addr) (name : String) (c : Option Addr × S)
      → ((o : Option Addr) (s : S) → (f.set o s).0 ≢ int_min)
      → Ends
          (λ _ t. Stored rt f c t)
          (NotStored e rt f name c)
          (and_then (check_copy c) (after_copy f name))
  unfolding check_copy after_copy
  copied-Stored he f name (none, t) codes = raises (refl, refl)
  copied-Stored he f name (some p, t) codes =
      Ends-map (λ _ v k. (k.1, k.0)) (λ x v k. (k.0, k.1, k.2))
        (throw_code-Tells e he name (rt.put p (f.set (some p) t).1) (f.set (some p) t).0
          (codes (some p) t))

  pub write-Stored :
      (he : IsErrno e) (f : AddressField S Addr) (name : String) (laddr : Addr) (s : S)
      → ((o : Option Addr) (s : S) → (f.set o s).0 ≢ int_min)
      → Ends
          (λ _ t. Stored rt f (rt.clone laddr s) t)
          (NotStored e rt f name (rt.clone laddr s))
          (write_address e rt f name laddr s)
  unfolding write_address copy_address change after_copy
  write-Stored he f name laddr s codes = copied-Stored he f name (rt.clone laddr s) codes
