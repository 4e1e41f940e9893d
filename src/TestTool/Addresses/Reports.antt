-- ===== src/TestTool/Addresses/Reports.antt =====
-- What address-add and address-del print.
use nlcpp.Common.{
  ℕ, ◌≡◌, ◌≢◌, refl, sym, ap, ◌∙◌, Bool, Bool-cases, inl, inr, if◌then◌else◌, some, List, [], ◌∷◌,
  ◌++◌,
}
use mathlib.Core.List.{append-nil}
use nlcpp.Common.Run.{M, Ends, ok, pure, ◌>>=◌, ◌>>◌, after_ok}
use nlcpp.Common.Int.{pos}
use nlcpp.Exception.{IsErrno, int_min}
use nlcpp.Exception.Codes.{throw_code-success}
use nlcpp.Route.Fields.{write_address, copy_address, check_copy, change}
use nlcpp.Route.Attributes.{to_uint32}
use nlcpp.Route.Attributes as Attributes
use nlcpp.Netlink.Socket.Open.{socket_make, socket_destroy}
use nlcpp.Route.RouteSocket.Answers.{
  Request, add_address_of, del_address_of, answer, declined, function_name, perform, Answered,
  Failed, perform-answer,
}
use nlcpp.TestTool.Line.{Word}
use nlcpp.TestTool.Number.{codes, word_eq}
use nlcpp.TestTool.Args.{AddressCall, parse_address_args, family_calls, done}
use nlcpp.TestTool.Args.Settings.{
  AddressSetting, set_family, set_fields, set_local, set_dev, set_prefixlen, address_words,
  address_calls, address_fields, AreKnown, parse_address_args-settings,
}
use nlcpp.TestTool.State.{Tool, on_nl, lift_run, show_bool}
use nlcpp.Route.Caches.{new_manager, link_cache, unwatched_address_cache, drop_cache, drop_manager}
use nlcpp.TestTool.Links.{}
use nlcpp.TestTool.Links.Reports.{LinkRequest, adding, deleting, report-Ends}
use nlcpp.TestTool.Addresses.{
  AddressCalls, device_index, is_address, set_address, address_of_args, args_of, set_from_args,
  new_address, address_add, address_del, leave_command, set_local_parsed,
}

module _ {S Link Object Addr Route : Type 0} (c : AddressCalls S Link Object Addr Route) where
  -- The family of this name, if it is one.
  abbrev with_family : Word → Object → Object
  with_family v o =
      if word_eq v (codes "inet")
      then c.rtnl_addr.family_of.set c.af_inet o
      else if word_eq v (codes "inet6")
      then c.rtnl_addr.family_of.set c.af_inet6 o
      else o

  -- The address `r` is `o` with the settings, in order, as libnl's setters say: those of a local address
  -- hand over a copy of what the text parses to, which libnl makes and takes, and give the copy back.
  abbrev pub HasSettings : List AddressSetting → (o r : Object) → Type 0
  HasSettings [] o r = o ≡ r
  HasSettings (set_fields v ∷ ss) o r = HasSettings ss o r
  HasSettings (set_family v ∷ ss) o r = HasSettings ss (with_family v o) r
  HasSettings (set_dev v z ∷ ss) o r = HasSettings ss (c.rtnl_addr.ifindex_of.set z o) r
  HasSettings (set_prefixlen v z ∷ ss) o r =
      HasSettings ss (c.rtnl_addr.prefixlen_of.set (to_uint32 z) o) r
  HasSettings (set_local w ∷ ss) o r =
      (a : Addr) × (copy : Addr) × (o₁ : Object) × (o₂ : Object) × (c.nl_addr_parse w ≡ some a)
      × (c.rtnl_addr.addr.clone a o ≡ (some copy, o₁))
      × (c.rtnl_addr.local_of.set (some copy) o₁ ≡ (pos 0, o₂))
      × HasSettings ss (c.rtnl_addr.addr.put copy o₂) r

  set_address-family :
      (v : Word) (rest : List AddressCall) (o : Object)
      → set_address c (family_calls v ++ rest) o ≡ set_address c rest (with_family v o)
  unfolding set_address Attributes.set_family
  set_address-family v rest o = elim (Bool-cases (word_eq v (codes "inet"))) [
    | inl inet ↦ rw inet refl
    | inr other ↦ rw other (elim (Bool-cases (word_eq v (codes "inet6"))) [
      | inl inet6 ↦ rw inet6 refl
      | inr none_of_them ↦ rw none_of_them refl
    ])
  ]

  set_local_parsed-taken :
      (he : IsErrno c.shared.errno) (w : Word) (o o₁ o₂ : Object) (a copy : Addr)
      → c.nl_addr_parse w ≡ some a
      → c.rtnl_addr.addr.clone a o ≡ (some copy, o₁)
      → c.rtnl_addr.local_of.set (some copy) o₁ ≡ (pos 0, o₂)
      → set_local_parsed c (c.nl_addr_parse w) o ≡ ok tt (c.rtnl_addr.addr.put copy o₂)
  unfolding set_local_parsed Attributes.set_local write_address copy_address check_copy change
  set_local_parsed-taken he w o o₁ o₂ a copy parsed copied taken =
      rw (parsed, copied, check_copy, taken)
        (throw_code-success c.shared.errno "failed to set local address" _ (pos 0) (λ h. cc)
          (sym he.success_zero))

  -- The setters in parseAddressArgs take the settings.
  set_address-HasSettings :
      (he : IsErrno c.shared.errno) (ss : List AddressSetting) (o r : Object)
      → HasSettings ss o r
      → set_address c (address_calls ss) o ≡ ok tt r
  unfolding set_address address_calls Attributes.set_ifindex Attributes.set_prefixlen
  set_address-HasSettings he [] o r h = ap (λ x. ok tt x) h
  set_address-HasSettings he (set_fields v ∷ ss) o r h = set_address-HasSettings he ss o r h
  set_address-HasSettings he (set_family v ∷ ss) o r h =
      set_address-family v (address_calls ss) o
      ∙ set_address-HasSettings he ss (with_family v o) r h
  set_address-HasSettings he (set_dev v z ∷ ss) o r h =
      set_address-HasSettings he ss (c.rtnl_addr.ifindex_of.set z o) r h
  set_address-HasSettings he (set_prefixlen v z ∷ ss) o r h =
      set_address-HasSettings he ss (c.rtnl_addr.prefixlen_of.set (to_uint32 z) o) r h
  set_address-HasSettings he (set_local w ∷ ss) o r (a, copy, o₁, o₂, parsed, copied, taken, h) =
      after_ok (λ _. set_address c (address_calls ss))
        (set_local_parsed-taken he w o o₁ o₂ a copy parsed copied taken)
      ∙ set_address-HasSettings he ss (c.rtnl_addr.addr.put copy o₂) r h

  -- libnl gives the manager, its caches and a new address, and takes the settings to the address `addr`;
  -- `s` is the state after this, without the cache of links.
  pub record IsStarted (ss : List AddressSetting) (t : Tool S) (addr : Object) (s : S)
      : Type 0 where
    pub with_manager : S
    pub managed :
        new_manager c.shared.errno c.shared.managers c.shared.netlink_route t.nl
        ≡ ok tt with_manager
    pub with_cache : S
    pub cached :
        unwatched_address_cache c.shared.errno c.shared.caches with_manager ≡ ok tt with_cache
    pub blank : Object
    pub with_address : S
    pub made : c.rtnl_addr_alloc with_cache ≡ (some blank, with_address)
    pub with_links : S
    pub linked : link_cache c.shared.errno c.shared.caches with_address ≡ ok tt with_links
    pub known : AreKnown (device_index c with_links) (is_address c) ss
    pub has_set : HasSettings ss blank addr
    pub dropped : c.shared.caches.nl_cache_put "route/link" with_links ≡ s

  args_of-settings :
      (ss : List AddressSetting) (s : S)
      → AreKnown (device_index c s) (is_address c) ss
      → args_of c s (address_words ss)
        ≡ record { calls = address_calls ss; fields = address_fields ss; ending = done }
  unfolding args_of parse_address_args
  args_of-settings ss s h =
      let find = device_index c s in
      ap (parse_address_args find (is_address c)) (sym (append-nil (address_words ss)))
      ∙ parse_address_args-settings find (is_address c) ss [] h
      ∙ ap (λ cs. record { calls = cs; fields = address_fields ss ++ []; ending = done })
          (append-nil (address_calls ss))
      ∙ ap (λ fs. record { calls = address_calls ss; fields = fs; ending = done })
          (append-nil (address_fields ss))

  pub new_address-made :
      (t : Tool S) (blank : Object) (s : S)
      → c.rtnl_addr_alloc t.nl ≡ (some blank, s)
      → new_address c t ≡ ok blank (record t { nl = s })
  unfolding new_address
  new_address-made t blank s h = rw h

  set_from_args-set :
      (he : IsErrno c.shared.errno) (ss : List AddressSetting) (t : Tool S) (blank addr : Object)
      → HasSettings ss blank addr
      → AreKnown (device_index c t.nl) (is_address c) ss
      → set_from_args c (args_of c t.nl (address_words ss)) blank t ≡ ok (addr, address_fields ss) t
  unfolding set_from_args
  set_from_args-set he ss t blank addr h known =
      rw (args_of-settings ss t.nl known, set_address-HasSettings he ss blank addr h)

  pub address_of_args-IsStarted :
      (he : IsErrno c.shared.errno) (ss : List AddressSetting) (t : Tool S) (addr : Object) (s : S)
      → IsStarted ss t addr s
      → address_of_args c (address_words ss) t ≡ ok (addr, address_fields ss) (record t { nl = s })
  unfolding address_of_args drop_cache
  address_of_args-IsStarted he ss t addr s h =
      let at : S → Tool S = λ u. record t { nl = u } in
      let left : Object × List Word → M (Tool S) (Object × List Word) =
        λ parsed. on_nl (drop_cache c.shared.errno c.shared.caches "route/link") >> pure parsed in
      let last : Object → M (Tool S) (Object × List Word) =
        λ blank. (λ u. set_from_args c (args_of c u.nl (address_words ss)) blank u) >>= left in
      let linking : Object → M (Tool S) (Object × List Word) =
        λ blank. on_nl (link_cache c.shared.errno c.shared.caches) >> last blank in
      let making : M (Tool S) (Object × List Word) = new_address c >>= linking in
      after_ok (λ _. on_nl (unwatched_address_cache c.shared.errno c.shared.caches) >> making)
        (ap (lift_run t) h.managed)
      ∙ after_ok (λ _. making) (ap (lift_run (at h.with_manager)) h.cached)
      ∙ after_ok linking (new_address-made (at h.with_cache) h.blank h.with_address h.made)
      ∙ after_ok (λ _. last h.blank) (ap (lift_run (at h.with_address)) h.linked)
      ∙ after_ok left (set_from_args-set he ss (at h.with_links) h.blank addr h.has_set h.known)
      ∙ ap (λ u. ok (addr, address_fields ss) (record t { nl = u })) h.dropped

  -- The destructors at the end of address-add and address-del.
  left_command :
      (members : ℕ × ℕ) (u : Tool S)
      → (v : S) × ((on_nl (socket_destroy c.shared.sockets members) >> leave_command c) u
          ≡ ok tt (record u { nl = v }))
  unfolding leave_command socket_destroy drop_cache drop_manager
  left_command members u = (_, refl)

  unfoldable pub address_command : LinkRequest → List Word → M (Tool S) (Unit {0})
  address_command adding = address_add c
  address_command deleting = address_del c

  unfoldable pub address_request : LinkRequest → Object → Request Object Link Route
  address_request adding = add_address_of
  address_request deleting = del_address_of

  unfoldable pub address_report : LinkRequest → Bool → Word
  address_report adding res = codes "address-add-done " ++ show_bool res
  address_report deleting res = codes "address-del-done " ++ show_bool res

  module _ (he : IsErrno c.shared.errno) (ss : List AddressSetting) (t : Tool S) (addr : Object)
      (s v : S) (members : ℕ × ℕ) (h : IsStarted ss t addr s)
      (opened : socket_make c.shared.sockets c.shared.netlink_route s ≡ ok members v) where
    -- With settings as its arguments, a manager, caches, an address object and a socket that libnl gives, and
    -- setters that take the settings, address-add or address-del asks the kernel about the address with
    -- these settings, in order. It prints one line, which says `true` where the kernel agrees and `false`
    -- where it has the address already, or has not got it; otherwise it throws what tells the
    -- kernel's error, and prints nothing.
    pub address_command-Reported :
        (r : LinkRequest)
        → (answer c.shared.rtnl (address_request r addr) v).0 ≢ int_min
        → Ends
            (λ _ u.
              (res : Bool) × (w : S) × (u.printed ≡ t.printed ++ (address_report r res ∷ []))
              × Answered
                  (declined c.shared.errno (address_request r addr))
                  (answer c.shared.rtnl (address_request r addr) v).0
                  (answer c.shared.rtnl (address_request r addr) v).1
                  res
                  w)
            (λ x u.
              (u.printed ≡ t.printed)
              × Failed c.shared.errno
                  (function_name (address_request r addr))
                  (declined c.shared.errno (address_request r addr))
                  (answer c.shared.rtnl (address_request r addr) v).0
                  (answer c.shared.rtnl (address_request r addr) v).1
                  x
                  u.nl)
            (address_command r (address_words ss) t)
    unfolding address_command address_add address_del address_request address_report perform
    address_command-Reported adding lo =
        rw (address_of_args-IsStarted he ss t addr s h, opened)
          (report-Ends c.shared (λ res. codes "address-add-done " ++ show_bool res)
            (on_nl (socket_destroy c.shared.sockets members) >> leave_command c)
            (record t { nl = v }) (left_command members)
            (perform-answer c.shared.errno he c.shared.rtnl (add_address_of addr) v lo))
    address_command-Reported deleting lo =
        rw (address_of_args-IsStarted he ss t addr s h, opened)
          (report-Ends c.shared (λ res. codes "address-del-done " ++ show_bool res)
            (on_nl (socket_destroy c.shared.sockets members) >> leave_command c)
            (record t { nl = v }) (left_command members)
            (perform-answer c.shared.errno he c.shared.rtnl (del_address_of addr) v lo))
