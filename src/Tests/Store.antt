-- ===== src/Tests/Store.antt =====
-- A store of reference counts: the place in the list is the pointer.
use nlcpp.Common.{
  ℕ, zero, suc, ◌+◌, ◌-◌, ◌<◌, ◌≡◌, refl, none, some, List, [], ◌∷◌, ◌++◌, arith, ◌==◌,
  if◌then◌else◌, length,
}
use nlcpp.Objects.Defs.{Ptr, Libnl, IsFresh, IsCounted}

abbrev pub count_at : List ℕ → ℕ → ℕ
count_at [] p = 0
count_at (c ∷ cs) zero = c
count_at (c ∷ cs) (suc p) = count_at cs p

abbrev pub modify : (ℕ → ℕ) → ℕ → List ℕ → List ℕ
modify f p [] = []
modify f zero (c ∷ cs) = f c ∷ cs
modify f (suc p) (c ∷ cs) = c ∷ modify f p cs

abbrev pub append_one : List ℕ → Ptr × List ℕ
append_one s = (some (length s), s ++ (1 ∷ []))

abbrev pub release : Ptr → List ℕ → List ℕ
release none s = s
release (some p) s = modify (λ c. c - 1) p s

abbrev pub counts : Libnl
counts = record {
  Store = List ℕ;
  refs = count_at;
  alloc = append_one;
  clone = λ p. append_one;
  get = modify (λ c. c + 1);
  put = release;
}

past_end : (s : List ℕ) → count_at s (length s) ≡ 0
past_end [] = refl
past_end (c ∷ cs) = past_end cs

count_at-append :
    (s : List ℕ) (q : ℕ) → count_at (s ++ (1 ∷ [])) q ≡ (if length s == q then 1 else count_at s q)
count_at-append [] zero = refl
count_at-append [] (suc q) = ground arith
count_at-append (c ∷ cs) zero = ground arith
count_at-append (c ∷ cs) (suc q) = ground (arith, count_at-append cs q)

count_at-modify :
    (f : ℕ → ℕ) (p q : ℕ) (s : List ℕ)
    → 0 < count_at s p
    → count_at (modify f p s) q ≡ (if p == q then f (count_at s q) else count_at s q)
count_at-modify f p q [] h = elim h [ ]
count_at-modify f zero zero (c ∷ cs) h = refl
count_at-modify f zero (suc q) (c ∷ cs) h = ground arith
count_at-modify f (suc p) zero (c ∷ cs) h = ground arith
count_at-modify f (suc p) (suc q) (c ∷ cs) h = ground (arith, count_at-modify f p q cs h)

pub append_one-IsFresh : (s : List ℕ) → IsFresh counts s (append_one s)
append_one-IsFresh s = (past_end s, count_at-append s)

pub counts-IsCounted : IsCounted counts
counts-IsCounted = record {
  allocator = record {
    alloc_fresh = append_one-IsFresh;
    clone_fresh = λ p s h. append_one-IsFresh s;
    put_refs = count_at-modify (λ c. c - 1);
    put_null = λ q s. refl;
  };
  get_refs = count_at-modify (λ c. c + 1);
}
