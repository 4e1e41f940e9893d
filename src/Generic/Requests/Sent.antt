-- ===== src/Generic/Requests/Sent.antt =====
-- The life of a request: made, given its attributes, sent, and destroyed at the end of the function.
use Prim.Native.String.{String}
use nlcpp.Common.{
  ℕ, ◌<◌, ◌≡◌, ◌≢◌, refl, sym, ◌∙◌, Option, none, some, List, [], arith, ◌⊎◌, inl, inr,
  if◌then◌else◌,
}
use mathlib.Core.Path.{subst}
use nlcpp.Common.Int.{ℤ, abs}
use nlcpp.Common.Run.{
  M, Thrown, Ends, returns, raises, runtime_error, throw, pure, ◌>>=◌, ◌>>◌, Ends-then, Ends-map,
  Ends-attempt,
}
use nlcpp.Exception.{Errno, IsErrno, int_min}
use nlcpp.Exception.Codes.{Tells, throw_code-Tells}
use nlcpp.Objects.Defs.{Ptr, Libnl, IsFresh, IsAllocator, World, is_null, construct, call_alloc}
use nlcpp.Objects.Rules.{Owned, fresh-Owned, construct-Owned}
use nlcpp.Message.{message_make}
use nlcpp.Message.Put.{checked_put}
use nlcpp.Generic.Header.{PutHeader, put_header}
use nlcpp.Generic.Requests.{Wire, leave, scoped, on_message, send, generic_message_make}
use nlcpp.Generic.Requests.Sending.{
  Attribute, Request, blank, with_attribute, View, IsBlank, IsPut, Quiet, IsWire, HasRoom, Sends,
  Kept, Holding, Gone, new-alive, still-Constructed, on_message-Ends, send-Ends, put-Ends,
  destroyed,
}

module _ {l : Libnl} (c : IsAllocator l) (view : View l) (ext : ℕ → ℕ) (w : World l) where
  -- Nothing was done: there was no message.
  abbrev pub NotMade : Thrown → World l → Type 0
  NotMade x v =
      (x ≡ runtime_error "Failed to allocate netlink message")
      × (v.objects ≡ w.objects)
      × Owned ext v
      × (view.sent v.store ≡ view.sent w.store)

  new_message :
      (r : Ptr × l.Store)
      → IsFresh l w.store r
      → IsBlank view w.store r
      → Owned ext w
      → Ends (Holding c view ext w blank) NotMade (
          (if is_null r.0
              then throw (runtime_error "Failed to allocate netlink message")
              else construct r.0)
            (record w { store = r.1 }))
  unfolding construct
  new_message (none, t) fresh same o = raises (refl, refl, (λ q. omega (arith, fresh q, o q)), same)
  new_message (some p, t) fresh is_blank o = returns (
    p,
    (
      refl,
      refl,
      construct-Owned c ext (record w { store = t }) (some p)
          (fresh-Owned c ext w (some p, t) fresh o),
    ),
    is_blank.0,
    is_blank.1,
  )

  module _ {Attrs Addr Nested : Type 0} (wire : Wire l Attrs Addr Nested)
      (law : IsWire wire view) where
    abbrev with_header : PutHeader → Request
    with_header h = record { header = some h; attributes = [] }

    header-Ends :
        (h : PutHeader) (this : ℕ) (v : World l)
        → HasRoom wire view h
        → Holding c view ext w blank this v
        → Ends
            (λ _ u. Holding c view ext w (with_header h) this u)
            NotMade
            (on_message (λ p. put_header (wire.genl p) h) this v)
    unfolding put_header
    header-Ends h this v room (p, k, sent, at) =
        let alive = new-alive c view ext w p this v k in
        Ends-map
          (λ _ u j.
            (p, still-Constructed c view ext w this p v u k j.0 j.1.0.0, j.1.0.1 ∙ sent, j.1.1))
          (λ x u j. absurd j.1)
          (on_message-Ends c view ext w
            {P = λ _ t. Quiet view v.store t × (view.request_at t p ≡ with_header h)} {Q = λ _ _. ⊥}
            (λ q. put_header (wire.genl q) h) this p v k
            (returns (
              law.header_quiet p h v.store,
              law.header_put p h v.store alive at (room p v.store alive at),
            )))

    -- A new message with its header.
    pub make-Ends :
        (e : Errno) (h : PutHeader)
        → HasRoom wire view h
        → Owned ext w
        → Ends (Holding c view ext w (with_header h)) NotMade (generic_message_make e wire h w)
    unfolding generic_message_make message_make call_alloc
    make-Ends e h room o =
        Ends-then
          (new_message (l.alloc w.store) (c.alloc_fresh w.store) (law.alloc_blank w.store) o)
          (λ this v k. Ends-then (header-Ends h this v room k) (λ _ u j. returns j) (λ x u j. j))
          (λ x v k. k)

    -- After a call with a local message: the message is still there where the call is still waiting.
    abbrev pub Left : {A : Type 0} → List Request → Option A → World l → Type 0
    Left sent none u = (this : ℕ) × Kept c view ext w sent this u
    Left sent (some a) u = Gone c view ext w sent u

    -- The message has been handed to nl_send_auto, and is left or gone.
    abbrev pub Ended : {A : Type 0} → Request → Option A → World l → Type 0
    Ended request a u = (sent : List Request) × Sends c view ext w wire request sent × Left sent a u

    -- The message has been handed to nl_send_auto, and is gone.
    abbrev pub Posted : Request → World l → Type 0
    Posted request u =
        (sent : List Request) × Sends c view ext w wire request sent × Gone c view ext w sent u

    -- An answered call has left its message.
    pub answered :
        {A : Type 0} (request : Request) (r : Option A) (x : A) (q : Option A) (u : World l)
        → r ≡ some x
        → q ≡ r
        → Ended request q u
        → (q ≡ some x) × Posted request u
    answered request r x q u is_some same left =
        (same ∙ is_some, subst (λ p. Ended request p u) (same ∙ is_some) left)

    leave-Ends :
        {A : Type 0} (r : Option A) (sent : List Request) (this : ℕ) (u : World l)
        → Kept c view ext w sent this u
        → Ends (λ a v. (a ≡ r) × Left sent a v) (λ _ _. ⊥) (leave this r u)
    unfolding leave
    leave-Ends none sent this u k = returns (refl, (this, k))
    leave-Ends (some a) sent this u k =
        Ends-then (destroyed c view ext w law.put_sent sent this u k) (λ _ v j. returns (refl, j))
          (λ x v j. absurd j)

    pub scoped-Ends :
        {A : Type 0} (Q : Thrown → Type 0) (r : Option A) (request : Request) (this : ℕ)
        (body : M (World l) (Option A)) (v : World l)
        → Ends
            (λ a u.
              (a ≡ r)
              × ((sent : List Request) × Sends c view ext w wire request sent
                  × Kept c view ext w sent this u))
            (λ x u. Kept c view ext w (view.sent w.store) this u × Q x)
            (body v)
        → Ends
            (λ a u. (a ≡ r) × Ended request a u)
            (λ x u. Gone c view ext w (view.sent w.store) u × Q x)
            (scoped this body v)
    unfolding scoped
    scoped-Ends Q r request this body v ends =
        Ends-attempt ends
          (λ a u k.
            Ends-map (λ b z j. (j.0 ∙ k.0, (k.1.0, k.1.1, j.1))) (λ x z j. absurd j)
              (leave-Ends a k.1.0 this u k.1.2))
          (λ x u k.
            Ends-then (destroyed c view ext w law.put_sent (view.sent w.store) this u k.0)
              (λ _ z j. raises (j, k.1)) (λ y z j. absurd j))

    -- Nothing has been sent, and no message is left: there was none, or it is gone and the exception tells
    -- why the attribute was not put.
    abbrev pub NotSent : Errno → String → Thrown → World l → Type 0
    NotSent e function x u =
        NotMade x u
        ⊎ (Gone c view ext w (view.sent w.store) u × ((n : ℕ) × (n ≢ 0) × Tells e function n x))

    -- A request with no attributes.
    pub bare-Ends :
        {A : Type 0} (e : Errno) (h : PutHeader) (r : Option A)
        → HasRoom wire view h
        → Owned ext w
        → Ends
            (λ a u. (a ≡ r) × Ended (with_header h) a u)
            NotMade
            ((generic_message_make e wire h >>= λ msg. scoped msg (do send e wire msg; pure r)) w)
    bare-Ends e h r room o =
        Ends-then (make-Ends e h room o)
          (λ this v k.
            Ends-map (λ a u j. j) (λ x u j. absurd j.1)
              (scoped-Ends (λ x. ⊥) r (with_header h) this _ v
                (Ends-then (send-Ends c view ext w (λ x u. ⊥) wire law e (with_header h) this v k)
                  (λ _ u j. returns (refl, j)) (λ x u j. absurd j))))
          (λ x v k. k)

    -- A request with one attribute.
    module _ (e : Errno) (he : IsErrno e) (function : String) (a : Attribute)
        (put : (p : ℕ) → l.Store → ℤ × l.Store)
        (puts : (p : ℕ) (s : l.Store) → 0 < l.refs s p → IsPut view a p s (put p s))
        (bounded : (p : ℕ) (s : l.Store) → (put p s).0 ≢ int_min) where
      checked-Ends :
          (p : ℕ) (s : l.Store)
          → 0 < l.refs s p
          → Ends
              (λ _ t.
                Quiet view s t × (view.request_at t p ≡ with_attribute a (view.request_at s p)))
              (λ x t. Quiet view s t × ((n : ℕ) × (n ≢ 0) × Tells e function n x))
              (checked_put e (wire.nla p) function (put p) s)
      unfolding checked_put
      checked-Ends p s alive =
          let is_put = puts p s alive in
          Ends-map
            (λ _ t j.
              subst
                (λ u.
                  Quiet view s u × (view.request_at u p ≡ with_attribute a (view.request_at s p)))
                (sym j.0) (is_put.0, is_put.1 j.1))
            (λ x t j. (subst (Quiet view s) (sym j.0) is_put.0, (abs (put p s).0, j.1, j.2)))
            (throw_code-Tells e he function (put p s).1 (put p s).0 (bounded p s))

      pub attribute-Ends :
          {A : Type 0} (h : PutHeader) (r : Option A)
          → HasRoom wire view h
          → Owned ext w
          → Ends
              (λ b u. (b ≡ r) × Ended (with_attribute a (with_header h)) b u)
              (NotSent e function)
              ((generic_message_make e wire h >>= λ msg. scoped msg (do
                on_message (λ p. checked_put e (wire.nla p) function (put p)) msg
                send e wire msg
                pure r))
                w)
      attribute-Ends h r room o =
          let request = with_attribute a (with_header h) in
          Ends-then (make-Ends e h room o)
            (λ this v k.
              Ends-map (λ b u j. j) (λ x u j. inr j)
                (scoped-Ends (λ x. (n : ℕ) × (n ≢ 0) × Tells e function n x) r request this _ v
                  (Ends-then
                    (put-Ends c view ext w (λ x. (n : ℕ) × (n ≢ 0) × Tells e function n x) _ a
                      (with_header h) this v (λ p alive. checked-Ends p v.store alive) k)
                    (λ _ u j.
                      Ends-then (send-Ends c view ext w (λ x u. ⊥) wire law e request this u j)
                        (λ _ z i. returns (refl, i)) (λ x z i. absurd i))
                    (λ x u j. j))))
            (λ x v k. inl k)
