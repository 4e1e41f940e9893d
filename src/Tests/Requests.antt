-- ===== src/Tests/Requests.antt =====
-- Requests at a libnl that keeps what each message has come to be, and what was sent.
use nlcpp.Common.{
  ℕ, ◌+◌, ◌≡◌, refl, arith, true, none, some, List, [], ◌∷◌, ◌++◌, ◌⊎◌, ◌==◌, if◌then◌else◌,
}
use nlcpp.Common.Int.{ℤ, pos, negsuc}
use nlcpp.Common.Run.{Ends, ◌>>=◌}
use nlcpp.Exception.Codes.{Tells}
use nlcpp.Objects.Defs.{Ptr, Libnl, IsAllocator, World}
use nlcpp.Objects.Counting.{holders}
use nlcpp.Netlink.Socket.Calls.{NlCalls}
use nlcpp.Netlink.Socket.Calls.Answers.{IsCount}
use nlcpp.Netlink.Socket.Delivery.{messages, final_status, or_else, outcome}
use nlcpp.Netlink.Socket.Sync.{concat}
use nlcpp.Generic.Ctrl.{no_family, parse_generic_family}
use nlcpp.Generic.Replies.{last_of}
use nlcpp.Generic.Requests.{Wire, RequestNumbers, request_family, request_interfaces, nl80211_make}
use nlcpp.Generic.Requests.Sending.{
  Attribute, text, word, Request, blank, with_attribute, View, IsWire,
}
use nlcpp.Generic.Requests.Sent.{NotSent, NotMade, Posted}
use nlcpp.Generic.Requests.Families.{family_request, request_family-answer}
use nlcpp.Generic.Requests.Interfaces.{Listed}
use nlcpp.Generic.Requests.Resolved.{asked, nl80211_interfaces-answer}
use nlcpp.Tests.Store.{count_at, append_one, modify, release, counts-IsCounted}
use nlcpp.Tests.Errors.{errno, errno-IsErrno}
use nlcpp.Tests.Families.{attr, ctrl_attr, nl80211_attr, before, batch, family, interfaces}

record Kernel : Type 0 where
  counts : List ℕ
  requests : ℕ → Request
  sent : List Request

abbrev update : (ℕ → Request) → ℕ → Request → ℕ → Request
update f p r q = if p == q then r else f q

abbrev with_new : Kernel → Ptr × List ℕ → Ptr × Kernel
with_new s (none, cs) = (none, record s { counts = cs })
with_new s (some p, cs) = (some p, record s { counts = cs; requests = update s.requests p blank })

abbrev kernel : Libnl
kernel = record {
  Store = Kernel;
  refs = λ s. count_at s.counts;
  alloc = λ s. with_new s (append_one s.counts);
  clone = λ p s. with_new s (append_one s.counts);
  get = λ p s. record s { counts = modify (λ c. c + 1) p s.counts };
  put = λ p s. record s { counts = release p s.counts };
}

kernel-IsAllocator : IsAllocator kernel
kernel-IsAllocator =
    let c = counts-IsCounted.allocator in
    record {
      alloc_fresh = λ s. c.alloc_fresh s.counts;
      clone_fresh = λ p s h. c.alloc_fresh s.counts;
      put_refs = λ p q s h. c.put_refs p q s.counts h;
      put_null = λ q s. refl;
    }

abbrev put_into : Attribute → ℕ → Kernel → ℤ × Kernel
put_into a p s =
    (pos 0, record s { requests = update s.requests p (with_attribute a (s.requests p)) })

abbrev full : Kernel → ℤ × Kernel
full s = (negsuc 4, s)

abbrev wire : Wire kernel (List (ℕ × ℕ)) ℕ ℕ
wire = record {
  genl = λ p. record {
    genlmsg_put = λ h s. (
      true,
      record s { requests = update s.requests p (record (s.requests p) { header = some h }) },
    );
    genl_header = λ s. record { cmd = 0; version = 0 };
    genlmsg_attrdata = λ s z. [];
    genlmsg_attrlen = λ s z. pos 0;
  };
  nla = λ p. record {
    nla_put = λ t size xs. full;
    nla_put_addr = λ t v. full;
    nla_put_s8 = λ t v. full;
    nla_put_u8 = λ t v. full;
    nla_put_s16 = λ t v. full;
    nla_put_u16 = λ t v. full;
    nla_put_s32 = λ t v. full;
    nla_put_u32 = λ t v. put_into (word t v) p;
    nla_put_s64 = λ t v. full;
    nla_put_u64 = λ t v. full;
    nla_put_string = λ t v. put_into (text t v) p;
    nla_put_nested = λ t v. full;
  };
  nl_send_auto = λ p s. (pos 0, record s { sent = s.sent ++ (s.requests p ∷ []) });
}

abbrev view : View kernel
view = record { request_at = λ s. s.requests; sent = λ s. s.sent }

wire-IsWire : IsWire wire view
wire-IsWire = record {
  alloc_blank = λ s. (refl, ground arith);
  put_sent = λ p s. refl;
  header_quiet = λ p h s. ((λ q. refl), refl);
  header_put = λ p h s alive at room. ground (arith, at);
  string_put = λ p t v s alive. (((λ q. refl), refl), λ z. ground arith);
  word_put = λ p t v s alive. (((λ q. refl), refl), λ z. ground arith);
  send_refs = λ p q s. refl;
  send_sent = λ p s alive good. refl;
  send_failed = λ p s alive failed. cc;
}

-- No other object, and nothing allocated or sent.
abbrev world : World kernel
world = record { objects = []; store = record { counts = []; requests = λ p. blank; sent = [] } }

abbrev numbers : RequestNumbers
numbers = record {
  genl_id_ctrl = pos 16;
  ctrl_cmd_getfamily = 3;
  nl80211_cmd_get_interface = 5;
  nlm_f_dump = pos 768;
}

request_family-answer_example :
    Ends
      (λ r u.
        (r
          ≡ some (record family {
            call_status = pos 0;
            client = (
              last_of
                  (λ m. parse_generic_family attr ctrl_attr m no_family)
                  none
                  (messages (concat before ++ batch)),
              0,
            );
          }))
        × Posted kernel-IsAllocator view
            (λ q. 0)
            world
            wire
            wire-IsWire
            (family_request numbers ctrl_attr "nl80211")
            u)
      (NotSent kernel-IsAllocator view (λ q. 0) world wire wire-IsWire errno "put")
      (request_family errno wire attr numbers 71
        (before ++ (batch ∷ []))
        ctrl_attr
        "nl80211"
        family
        world)
unfolding final_status or_else outcome holders
request_family-answer_example =
    request_family-answer kernel-IsAllocator view wire wire-IsWire errno attr numbers ctrl_attr 71
      before batch [] (pos 0) (refl, tt) refl (λ q. 0) world (λ q. refl) errno-IsErrno "nl80211"
      (λ p s alive at. refl) (λ p s h. cc) family

-- The id of the family is 28.
abbrev resolving : NlCalls Kernel
resolving = record {
  accept_any_sequence = λ s. s;
  nl_socket_add_membership = λ z s. (pos 0, s);
  nl_socket_drop_membership = λ z s. (pos 0, s);
  nl_recvmsgs = λ s. (pos 0, s);
  genl_ctrl_resolve = λ name s. (pos 28, s);
  genl_ctrl_resolve_grp = λ name group s. (pos 0, s);
  nl_cache_mngr_alloc = λ z s. (pos 0, s);
  nl_cache_mngr_poll = λ z s. (pos 0, s);
  nl_cache_mngr_data_ready = λ s. (pos 0, s);
}

nl80211_interfaces-answer_example :
    Ends
      (Listed kernel-IsAllocator view wire wire-IsWire attr numbers nl80211_attr
        (λ q. 0)
        (concat before ++ batch)
        (pos 0)
        (asked resolving "nl80211" world)
        (pos 28)
        interfaces)
      (λ x u.
        NotMade kernel-IsAllocator view (λ q. 0) (asked resolving "nl80211" world) x u
        ⊎ ((u ≡ asked resolving "nl80211" world)
            × (¬ IsCount (pos 28))
            × Tells errno "genl_ctrl_resolve failed" 28 x))
      ((nl80211_make errno resolving "nl80211" >>= λ id.
          request_interfaces errno wire attr numbers 71
            (before ++ (batch ∷ []))
            nl80211_attr
            id
            interfaces)
        world)
unfolding final_status or_else outcome holders
nl80211_interfaces-answer_example =
    nl80211_interfaces-answer kernel-IsAllocator view wire wire-IsWire errno errno-IsErrno attr
      numbers nl80211_attr 71 before batch [] (pos 0) (refl, tt) refl (λ q. 0) resolving "nl80211"
      world interfaces (λ h. cc) (λ q. refl) (λ p s alive at. refl) (λ q. refl)
