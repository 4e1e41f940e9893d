-- ===== src/Tests/Commands.antt =====
-- The commands of the test tool about links, with two links and a kernel that agrees to everything.
use nlcpp.Common.{
  ℕ, ◌≡◌, ◌≢◌, refl, Bool, true, Option, none, some, List, [], ◌∷◌, arith, ◌==◌, if◌then◌else◌,
}
use nlcpp.Common.Int.{ℤ, pos}
use nlcpp.Common.Run.{Ends, ok}
use nlcpp.Exception.{int_min}
use nlcpp.Objects.Defs.{Ptr}
use nlcpp.Netlink.Socket.Open.{socket_make}
use nlcpp.Netlink.Socket.Calls.{NlCalls}
use nlcpp.Route.RouteLink.Attributes.{RtnlLink}
use nlcpp.Route.RouteSocket.{Rtnl}
use nlcpp.Route.RouteSocket.Answers.{Answered, Failed, declined, answer, function_name}
use nlcpp.TestTool.Line.{Word}
use nlcpp.TestTool.Number.{codes, word_eq}
use nlcpp.Route.TypedCache.Iteration.{matching}
use nlcpp.TestTool.Args.Settings.{LinkSetting, link_name, link_words}
use nlcpp.TestTool.State.{Tool, digits}
use nlcpp.Route.Caches.{new_manager, link_cache}
use nlcpp.TestTool.Links.{LinkCalls, link_item, link_list}
use nlcpp.TestTool.Links.Reports.{
  deleting, command, request_of, report, described, command-Reported,
}
use nlcpp.TestTool.Links.Listing.{link_list-matching}
use nlcpp.Tests.Errors.{errno, errno-IsErrno}
use nlcpp.Tests.SocketLife.{Sockets, socket_calls, unused, take_set, alloc_socket}

-- A link as its name and its index.
abbrev pub Link : Type 0
Link = Option Word × ℤ

abbrev rtnl_link : RtnlLink Link Word
rtnl_link = record {
  get_name = λ l. l.0;
  set_name_in = λ v l. (some v, l.1);
  get_flags = λ l. 0;
  set_flags_in = λ v l. l;
  unset_flags_in = λ v l. l;
  ifindex_of = record { get = λ l. l.1; set = λ v l. (l.0, v) };
  operstate_of = record { get = λ l. 0; set = λ v l. l };
  get_type = λ l. none;
  set_type_in = λ v l. l;
}

abbrev agreeing : {A : Type 0} → Rtnl Sockets A Link ℕ
agreeing = record {
  addr_add = λ a f s. (pos 0, s);
  addr_delete = λ a f s. (pos 0, s);
  link_add = λ l f s. (pos 0, s);
  link_delete = λ l s. (pos 0, s);
  link_change = λ l k f s. (pos 0, s);
  route_add = λ r f s. (pos 0, s);
  route_delete = λ r f s. (pos 0, s);
  nlm_f_create = 1024;
  nlm_f_excl = 512;
}

abbrev pub managers : NlCalls Sockets
managers = record {
  accept_any_sequence = λ s. s;
  nl_socket_add_membership = λ g s. (pos 0, s);
  nl_socket_drop_membership = λ g s. (pos 0, s);
  nl_recvmsgs = λ s. (pos 0, s);
  genl_ctrl_resolve = λ n s. (pos 0, s);
  genl_ctrl_resolve_grp = λ n g s. (pos 0, s);
  nl_cache_mngr_alloc = λ z s. (pos 0, s);
  nl_cache_mngr_poll = λ z s. (pos 0, s);
  nl_cache_mngr_data_ready = λ s. (pos 0, s);
}

abbrev pub named : Option Word → Option Word → Bool
named none f = true
named (some w) none = true
named (some w) (some v) = word_eq w v

abbrev pub calls_with : Ptr → {A : Type 0} → LinkCalls Sockets Link A ℕ
calls_with first = record {
  errno = errno;
  rtnl_link = rtnl_link;
  rtnl = agreeing;
  sockets = socket_calls;
  managers = managers;
  netlink_route = pos 0;
  rtnl_link_alloc = λ s. (some (none, pos 0), s);
  caches = record {
    nl_cache_mngr_add = λ kind s. (pos 0, s);
    nl_cache_get = λ kind s. s;
    nl_cache_put = λ kind s. s;
    nl_cache_mngr_free = λ s. s;
  };
  first_link = λ s. first;
  next_link = λ s x. if x == 1 then some 2 else none;
  link_at =
      λ s x. (some (if x == 1 then codes "lo" else codes "eth0"), if x == 1 then pos 1 else pos 2);
  match_filter = λ l f. named l.0 f.0;
}

abbrev pub tool : Tool Sockets
tool = record { printed = []; errors = []; nl = unused }

abbrev pub settings : List LinkSetting
settings = link_name (codes "eth0") ∷ []

pub zero_allowed : pos 0 ≢ int_min
zero_allowed h = ground arith

abbrev pub opened_state : Sockets
opened_state = take_set 1 (alloc_socket 0 (take_set 0 unused)).1

pub opened : socket_make socket_calls (pos 0) unused ≡ ok (0, 1) opened_state
unfolding socket_make
opened = refl

abbrev pub eth0 : Link
eth0 = (some (codes "eth0"), pos 0)

command-Reported_example :
    Ends
      (λ _ u.
        (res : Bool) × (w : Sockets) × (u.printed
          ≡ report (calls_with none {A = ℕ}) deleting res ∷ [])
        × Answered (some 31) (pos 0) opened_state res w)
      (λ x u.
        (u.printed ≡ [])
        × Failed errno "rtnl_link_delete failed" (some 31) (pos 0) opened_state x u.nl)
      (command (calls_with none {A = ℕ}) deleting (link_words settings) tool)
unfolding declined answer request_of function_name
command-Reported_example =
    command-Reported (calls_with none {A = ℕ}) errno-IsErrno settings tool (none, pos 0) unused
      opened_state (0, 1) tt refl opened deleting zero_allowed

pub manager_made :
    (first : Ptr) → new_manager {S = Sockets} errno managers (pos 0) unused ≡ ok tt unused
unfolding new_manager
manager_made first = refl

pub link_cache_made :
    (first : Ptr)
    → link_cache {S = Sockets} errno (calls_with first {A = ℕ}).caches unused ≡ ok tt unused
unfolding link_cache
link_cache_made first = refl

link_list-matching_example :
    link_list (calls_with (some 1) {A = ℕ}) 3 (link_words settings) tool
    ≡ ok tt (record tool { printed = codes "link-list-item 2 eth0" ∷ codes "link-list-done" ∷ [] })
unfolding described matching link_item digits
link_list-matching_example =
    link_list-matching (calls_with (some 1) {A = ℕ}) settings tool (none, pos 0) (none, pos 0)
      unused unused unused unused tt (manager_made (some 1)) (link_cache_made (some 1)) refl refl 1
      (2 ∷ []) 3 (refl, (refl, refl)) (omega arith)
