-- ===== src/TestTool/Links/Reports.antt =====
-- What link-add and link-del print.
use nlcpp.Common.{ℕ, ◌≡◌, ◌≢◌, refl, Bool, some, List, [], ◌∷◌, ◌++◌}
use nlcpp.Common.Int.{pos}
use nlcpp.Common.Run.{
  Run, M, Ends, returns, raises, ok, throws, exit_program, ◌>>◌, Thrown, and_then,
}
use nlcpp.Exception.{IsErrno, int_min}
use nlcpp.Netlink.Socket.Open.{socket_make, socket_destroy}
use nlcpp.Route.RouteLink.Attributes.{set_link_name, set_link_type, set_link_ifindex}
use nlcpp.Route.RouteSocket.Answers.{
  Request, add_link_of, del_link_of, answer, declined, function_name, perform, Answered, Failed,
  perform-answer,
}
use nlcpp.TestTool.Line.{Word}
use nlcpp.TestTool.Number.{codes}
use nlcpp.TestTool.Args.Settings.{
  LinkSetting, link_name, link_type, link_ifindex, link_words, link_calls, AreReadable,
  IsUnexpected, parse_link_args-all, parse_link_args-settings,
}
use nlcpp.TestTool.State.{Tool, on_nl, lift_run, print_line, show_bool}
use nlcpp.TestTool.Links.{LinkCalls, new_link, set_link, link_of_args, link_add, link_del}

pub data LinkRequest : Type 0 where
  adding deleting : LinkRequest

module _ {S Link Addr Route : Type 0} (c : LinkCalls S Link Addr Route) where
  -- A link with the settings, in order; a later one wins over an earlier one as libnl's setters say.
  unfoldable pub described : List LinkSetting → Link → Link
  described [] l = l
  described (link_name v ∷ ss) l = described ss (c.rtnl_link.set_name_in v l)
  described (link_type v ∷ ss) l = described ss (c.rtnl_link.set_type_in v l)
  described (link_ifindex v z ∷ ss) l = described ss (c.rtnl_link.ifindex_of.set z l)

  set_link-described :
      (ss : List LinkSetting) (l : Link) → set_link c (link_calls ss) l ≡ ok tt (described ss l)
  unfolding set_link described link_calls set_link_name set_link_type set_link_ifindex
  set_link-described [] l = refl
  set_link-described (link_name v ∷ ss) l = set_link-described ss (c.rtnl_link.set_name_in v l)
  set_link-described (link_type v ∷ ss) l = set_link-described ss (c.rtnl_link.set_type_in v l)
  set_link-described (link_ifindex v z ∷ ss) l =
      set_link-described ss (c.rtnl_link.ifindex_of.set z l)

  pub new_link-made :
      (t : Tool S) (blank : Link) (s : S)
      → c.rtnl_link_alloc t.nl ≡ (some blank, s)
      → new_link c t ≡ ok blank (record t { nl = s })
  unfolding new_link
  new_link-made t blank s made = rw made

  module _ (ss : List LinkSetting) (t : Tool S) (blank : Link) (s : S) (h : AreReadable ss)
      (made : c.rtnl_link_alloc t.nl ≡ (some blank, s)) where
    pub link_of_args-described :
        link_of_args c (link_words ss) t ≡ ok (described ss blank) (record t { nl = s })
    unfolding link_of_args new_link
    link_of_args-described = rw (made, parse_link_args-all ss h, set_link-described ss blank)

    -- Where a command about links comes to a word that is no setting, or is the last, after any number
    -- of settings, the program exits with status 1 over that word, and has printed nothing.
    link_of_args-exits :
        (a : Word) (rest : List Word)
        → IsUnexpected a rest
        → link_of_args c (link_words ss ++ (a ∷ rest)) t
          ≡ throws (exit_program (pos 1)) (record t {
            nl = s;
            errors = t.errors ++ ((codes "unexpected link argument: " ++ a) ∷ []);
          })
    unfolding link_of_args new_link
    link_of_args-exits a rest u =
        rw (made, (parse_link_args-settings ss a rest h u).1, set_link-described ss blank)

  -- The rest of both commands, behind a request that ends as `P` and `Q` say.
  pub report-Ends :
      {P : Bool → S → Type 0} {Q : Thrown → S → Type 0} {r : Run S Bool} (line : Bool → Word)
      (finish : M (Tool S) (Unit {0})) (t : Tool S)
      → ((u : Tool S) → (v : S) × (finish u ≡ ok tt (record u { nl = v })))
      → Ends P Q r
      → Ends
          (λ _ u. (res : Bool) × (v : S) × (u.printed ≡ t.printed ++ (line res ∷ [])) × P res v)
          (λ x u. (u.printed ≡ t.printed) × Q x u.nl)
          (and_then (lift_run t r) (λ res. print_line (line res) >> finish))
  unfolding print_line
  report-Ends line finish t finishes (returns {a} {s} p) =
      rw (finishes (record t { printed = t.printed ++ (line a ∷ []); nl = s })).1
        (returns (a, s, refl, p))
  report-Ends line finish t finishes (raises q) = raises (refl, q)

  -- The destructor of the socket, as the rest of a command.
  pub closed :
      (members : ℕ × ℕ) (u : Tool S)
      → (v : S) × (on_nl (socket_destroy c.sockets members) u ≡ ok tt (record u { nl = v }))
  unfolding socket_destroy
  closed members u = (_, refl)

  unfoldable pub command : LinkRequest → List Word → M (Tool S) (Unit {0})
  command adding = link_add c
  command deleting = link_del c

  unfoldable pub request_of : LinkRequest → Link → Request Addr Link Route
  request_of adding = add_link_of
  request_of deleting = del_link_of

  unfoldable pub report : LinkRequest → Bool → Word
  report adding res = codes "link-add-done " ++ show_bool res
  report deleting res = codes "link-del-done " ++ show_bool res

  module _ (he : IsErrno c.errno) (ss : List LinkSetting) (t : Tool S) (blank : Link) (s v : S)
      (members : ℕ × ℕ) (h : AreReadable ss) (made : c.rtnl_link_alloc t.nl ≡ (some blank, s))
      (opened : socket_make c.sockets c.netlink_route s ≡ ok members v) where
    -- With settings as its arguments, and a link and a socket that libnl gives, link-add or link-del asks
    -- the kernel about the link with these settings, in order. It prints one line, which says `true`
    -- where the kernel agrees and `false` where it has the link already, or has not got it; otherwise
    -- it throws what tells the kernel's error, and prints nothing.
    pub command-Reported :
        (r : LinkRequest)
        → (answer c.rtnl (request_of r (described ss blank)) v).0 ≢ int_min
        → Ends
            (λ _ u.
              (res : Bool) × (w : S) × (u.printed ≡ t.printed ++ (report r res ∷ []))
              × Answered
                  (declined c.errno (request_of r (described ss blank)))
                  (answer c.rtnl (request_of r (described ss blank)) v).0
                  (answer c.rtnl (request_of r (described ss blank)) v).1
                  res
                  w)
            (λ x u.
              (u.printed ≡ t.printed)
              × Failed c.errno
                  (function_name (request_of r (described ss blank)))
                  (declined c.errno (request_of r (described ss blank)))
                  (answer c.rtnl (request_of r (described ss blank)) v).0
                  (answer c.rtnl (request_of r (described ss blank)) v).1
                  x
                  u.nl)
            (command r (link_words ss) t)
    unfolding command link_add link_del request_of report perform
    command-Reported adding lo =
        rw (link_of_args-described ss t blank s h made, opened)
          (report-Ends (λ res. codes "link-add-done " ++ show_bool res)
            (on_nl (socket_destroy c.sockets members)) (record t { nl = v }) (closed members)
            (perform-answer c.errno he c.rtnl (add_link_of (described ss blank)) v lo))
    command-Reported deleting lo =
        rw (link_of_args-described ss t blank s h made, opened)
          (report-Ends (λ res. codes "link-del-done " ++ show_bool res)
            (on_nl (socket_destroy c.sockets members)) (record t { nl = v }) (closed members)
            (perform-answer c.errno he c.rtnl (del_link_of (described ss blank)) v lo))
