-- ===== src/Generic/Requests/Sending.antt =====
-- A message on its way: what libnl keeps of it, and what a local message does with the references.
use Prim.Native.String.{String}
use nlcpp.Common.{
  ℕ, ◌+◌, ◌<◌, ◌≡◌, refl, sym, ap, ◌∙◌, Option, none, some, List, [], ◌∷◌, ◌++◌, arith, set, ◌==◌,
  Bool-cases, inl, inr, ◌⊎◌, true, false, get_elem?-append, set-append_at,
}
use nlcpp.Common.Int.{ℤ, abs}
use nlcpp.Common.Run.{Run, M, Thrown, ok, Ends, returns, raises, Ends-map}
use nlcpp.Exception.{Errno}
use nlcpp.Netlink.Socket.Calls.{is_negative}
use nlcpp.Objects.Counting.{holders}
use nlcpp.Objects.Defs.{Ptr, Libnl, IsAllocator, World}
use nlcpp.Objects.Rules.{Owned, Owned-Alive, IsLive, member_lem}
use nlcpp.Objects.Handle.{destroy_object}
use nlcpp.Objects.Handle.Life.{Constructed, destroy_object-ok}
use nlcpp.Message.{message_destroy}
use nlcpp.Generic.Header.{PutHeader}
use nlcpp.Generic.Requests.{Wire, lift_store, on_pointer, on_message, send}

-- An attribute of a request: its type and its value.
pub data Attribute : Type 0 where
  text : ℤ → String → Attribute
  word : ℤ → ℕ → Attribute

pub record Request : Type 0 where
  pub header : Option PutHeader
  pub attributes : List Attribute

abbrev pub blank : Request
blank = record { header = none; attributes = [] }

abbrev pub with_attribute : Attribute → Request → Request
with_attribute a r = record r { attributes = r.attributes ++ (a ∷ []) }

-- What can be seen of libnl's state: the request that a message has come to be, and the requests that
-- have been sent.
pub record View (l : Libnl) : Type 0 where
  pub request_at : l.Store → ℕ → Request
  pub sent : l.Store → List Request

module _ {l : Libnl} (view : View l) where
  -- No reference has changed, and nothing has been sent.
  abbrev pub Quiet : l.Store → l.Store → Type 0
  Quiet s t = ((q : ℕ) → l.refs t q ≡ l.refs s q) × (view.sent t ≡ view.sent s)

  -- A new message is blank.
  abbrev pub IsBlank : l.Store → Ptr × l.Store → Type 0
  IsBlank s (none, t) = view.sent t ≡ view.sent s
  IsBlank s (some p, t) = (view.sent t ≡ view.sent s) × (view.request_at t p ≡ blank)

  -- `nla_put_X` has put the attribute where it reports success.
  abbrev pub IsPut : Attribute → ℕ → l.Store → ℤ × l.Store → Type 0
  IsPut a p s (err, t) =
      Quiet s t × (abs err ≡ 0 → view.request_at t p ≡ with_attribute a (view.request_at s p))

-- The documented behaviour. genlmsg_put says whether there was room for the header, and nl_send_auto
-- whether the message was sent.
pub record IsWire {l : Libnl} {Attrs Addr Nested : Type 0} (wire : Wire l Attrs Addr Nested)
    (view : View l) : Type 0 where
  pub alloc_blank : (s : l.Store) → IsBlank view s (l.alloc s)
  pub put_sent : (p : Ptr) (s : l.Store) → view.sent (l.put p s) ≡ view.sent s
  pub header_quiet :
      (p : ℕ) (h : PutHeader) (s : l.Store) → Quiet view s ((wire.genl p).genlmsg_put h s).1
  pub header_put :
      (p : ℕ) (h : PutHeader) (s : l.Store)
      → 0 < l.refs s p
      → view.request_at s p ≡ blank
      → ((wire.genl p).genlmsg_put h s).0 ≡ true
      → view.request_at ((wire.genl p).genlmsg_put h s).1 p
        ≡ record { header = some h; attributes = [] }
  pub string_put :
      (p : ℕ) (t : ℤ) (value : String) (s : l.Store)
      → 0 < l.refs s p
      → IsPut view (text t value) p s ((wire.nla p).nla_put_string t value s)
  pub word_put :
      (p : ℕ) (t : ℤ) (value : ℕ) (s : l.Store)
      → 0 < l.refs s p
      → IsPut view (word t value) p s ((wire.nla p).nla_put_u32 t value s)
  pub send_refs : (p q : ℕ) (s : l.Store) → l.refs (wire.nl_send_auto p s).1 q ≡ l.refs s q
  pub send_sent :
      (p : ℕ) (s : l.Store)
      → 0 < l.refs s p
      → is_negative (wire.nl_send_auto p s).0 ≡ false
      → view.sent (wire.nl_send_auto p s).1 ≡ view.sent s ++ (view.request_at s p ∷ [])
  pub send_failed :
      (p : ℕ) (s : l.Store)
      → 0 < l.refs s p
      → is_negative (wire.nl_send_auto p s).0 ≡ true
      → view.sent (wire.nl_send_auto p s).1 ≡ view.sent s

-- There is room for this header in a new message.
abbrev pub HasRoom :
    {l : Libnl} {Attrs Addr Nested : Type 0}
    → Wire l Attrs Addr Nested
    → View l
    → PutHeader
    → Type 0
HasRoom {l} wire view h =
    (p : ℕ) (s : l.Store)
    → 0 < l.refs s p
    → view.request_at s p ≡ blank
    → ((wire.genl p).genlmsg_put h s).0 ≡ true

module _ {l : Libnl} (c : IsAllocator l) (view : View l) (ext : ℕ → ℕ) (w : World l) where
  -- One object more, with a message; the requests sent are these.
  abbrev pub Kept : List Request → ℕ → World l → Type 0
  Kept sent this v = (p : ℕ) × Constructed ext w (some p) this v × (view.sent v.store ≡ sent)

  -- The same, and what the message has come to be.
  abbrev pub Holding : Request → ℕ → World l → Type 0
  Holding r this v =
      (p : ℕ) × Constructed ext w (some p) this v
      × (view.sent v.store ≡ view.sent w.store)
      × (view.request_at v.store p ≡ r)

  -- The object is gone.
  abbrev pub Gone : List Request → World l → Type 0
  Gone sent v = (v.objects ≡ w.objects ++ (none ∷ [])) × Owned ext v × (view.sent v.store ≡ sent)

  -- The message that came to be this request was handed to nl_send_auto: where it reports success, the
  -- request is one more of those sent, and otherwise they are those of before.
  abbrev pub Sends :
      {Attrs Addr Nested : Type 0}
      → Wire l Attrs Addr Nested
      → Request
      → (sent : List Request) → Type 0
  Sends wire r sent =
      (p : ℕ) × (t : l.Store) × (0 < l.refs t p)
      × (view.request_at t p ≡ r)
      × (view.sent t ≡ view.sent w.store)
      × (((is_negative (wire.nl_send_auto p t).0 ≡ false) × (sent ≡ view.sent w.store ++ (r ∷ [])))
          ⊎ ((is_negative (wire.nl_send_auto p t).0 ≡ true) × (sent ≡ view.sent w.store)))

  new-IsLive :
      (p : ℕ) (this : ℕ) (v : World l) → Constructed ext w (some p) this v → IsLive v this (some p)
  new-IsLive p this v (place, objects, o) =
      rw (place, objects) (get_elem?-append w.objects (some (some p)) [])

  pub new-alive :
      (p : ℕ) (this : ℕ) (v : World l) → Constructed ext w (some p) this v → 0 < l.refs v.store p
  new-alive p this v k = Owned-Alive v ext this (some p) (new-IsLive p this v k) k.2

  gone-set :
      (this p : ℕ) (v : World l)
      → Constructed ext w (some p) this v
      → set v.objects this none ≡ w.objects ++ (none ∷ [])
  gone-set this p v (place, objects, o) =
      rw (place, objects) (set-append_at w.objects (some (some p)) none [])

  lifted {ℓ κ} :
      {A : Type ℓ} {P : A → l.Store → Type κ} {Q : Thrown → l.Store → Type κ} {r : Run l.Store A}
      (v : World l)
      → Ends P Q r
      → Ends
          (λ a u. (u.objects ≡ v.objects) × P a u.store)
          (λ x u. (u.objects ≡ v.objects) × Q x u.store)
          (lift_store v r)
  lifted v (returns h) = returns (refl, h)
  lifted v (raises h) = raises (refl, h)

  -- A call on the message of the new object.
  pub on_message-Ends {ℓ κ} :
      {A : Type ℓ} {P : A → l.Store → Type κ} {Q : Thrown → l.Store → Type κ} (f : ℕ → M l.Store A)
      (this p : ℕ) (v : World l)
      → Constructed ext w (some p) this v
      → Ends P Q (f p v.store)
      → Ends
          (λ a u. (u.objects ≡ v.objects) × P a u.store)
          (λ x u. (u.objects ≡ v.objects) × Q x u.store)
          (on_message f this v)
  unfolding on_message on_pointer
  on_message-Ends f this p v k ends =
      let some_refs : (l.refs v.store p == 0) ≡ false = ground (arith, new-alive p this v k) in
      rw (member_lem v this (some p) (new-IsLive p this v k), some_refs) (lifted v ends)

  pub still-Constructed :
      (this p : ℕ) (v u : World l)
      → Constructed ext w (some p) this v
      → u.objects ≡ v.objects
      → ((q : ℕ) → l.refs u.store q ≡ l.refs v.store q)
      → Constructed ext w (some p) this u
  still-Constructed this p v u (place, objects, o) same refs =
      (place, same ∙ objects, λ q. refs q ∙ o q ∙ ap (λ os. holders q os + ext q) (sym same))

  -- What nl_send_auto comes to.
  sends :
      {Attrs Addr Nested : Type 0} (wire : Wire l Attrs Addr Nested) (law : IsWire wire view)
      (r : Request) (p : ℕ) (t : l.Store)
      → 0 < l.refs t p
      → view.request_at t p ≡ r
      → view.sent t ≡ view.sent w.store
      → Sends wire r (view.sent (wire.nl_send_auto p t).1)
  sends wire law r p t alive at same = elim (Bool-cases (is_negative (wire.nl_send_auto p t).0)) [
    | inl failed ↦ (p, t, alive, at, same, inr (failed, law.send_failed p t alive failed ∙ same))
    | inr good ↦
        (p, t, alive, at, same, inl (good, rw (law.send_sent p t alive good, same, at) refl))
  ]

  -- Sending a message leaves it as it is.
  pub send-Ends :
      {Attrs Addr Nested : Type 0} (Q : Thrown → World l → Type 0) (wire : Wire l Attrs Addr Nested)
      (law : IsWire wire view) (e : Errno) (r : Request) (this : ℕ) (v : World l)
      → Holding r this v
      → Ends
          (λ _ u. (sent : List Request) × Sends wire r sent × Kept sent this u)
          Q
          (send e wire this v)
  unfolding send
  send-Ends Q wire law e r this v (p, k, sent, at) =
      let after = (wire.nl_send_auto p v.store).1 in
      let alive = new-alive p this v k in
      Ends-map
        (λ _ u j. (
          view.sent after,
          sends wire law r p v.store alive at sent,
          (p, still-Constructed this p v u k j.0 j.1.0, j.1.1),
        ))
        (λ x u j. absurd j.1)
        (on_message-Ends
          {P = λ _ t. ((q : ℕ) → l.refs t q ≡ l.refs v.store q) × (view.sent t ≡ view.sent after)}
          {Q = λ _ _. ⊥} (λ q t. ok tt (wire.nl_send_auto q t).1) this p v k
          (returns ((λ q. law.send_refs p q v.store), refl)))

  -- A `put` that reports success adds its attribute; one that throws adds nothing that is sent.
  pub put-Ends :
      (Q : Thrown → Type 0) (f : ℕ → M l.Store (Unit {0})) (a : Attribute) (r : Request) (this : ℕ)
      (v : World l)
      → ((p : ℕ)
          → 0 < l.refs v.store p
          → Ends
              (λ _ t.
                Quiet view v.store t
                × (view.request_at t p ≡ with_attribute a (view.request_at v.store p)))
              (λ x t. Quiet view v.store t × Q x)
              (f p v.store))
      → Holding r this v
      → Ends
          (λ _ u. Holding (with_attribute a r) this u)
          (λ x u. Kept (view.sent w.store) this u × Q x)
          (on_message f this v)
  put-Ends Q f a r this v puts (p, k, sent, at) =
      Ends-map
        (λ _ u j. (
          p,
          still-Constructed this p v u k j.0 j.1.0.0,
          j.1.0.1 ∙ sent,
          j.1.1 ∙ ap (with_attribute a) at,
        ))
        (λ x u j. ((p, still-Constructed this p v u k j.0 j.1.0.0, j.1.0.1 ∙ sent), j.1.1))
        (on_message-Ends f this p v k (puts p (new-alive p this v k)))

  -- The end of the local message.
  pub destroyed :
      (law : (p : Ptr) (s : l.Store) → view.sent (l.put p s) ≡ view.sent s) (sent : List Request)
      (this : ℕ) (v : World l)
      → Kept sent this v
      → Ends (λ _ u. Gone sent u) (λ _ _. ⊥) (message_destroy this v)
  unfolding message_destroy destroy_object
  destroyed law sent this v (p, k, same) =
      Ends-map
        (λ _ u j. (j.0 ∙ gone-set this p v k, j.2, ap view.sent j.1 ∙ law (some p) v.store ∙ same))
        (λ x u j. absurd j) (destroy_object-ok c ext v this (some p) (new-IsLive p this v k) k.2)
