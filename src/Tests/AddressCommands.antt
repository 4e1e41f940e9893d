-- ===== src/Tests/AddressCommands.antt =====
-- The commands of the test tool about addresses, with two addresses and a kernel that agrees to
-- everything.
use nlcpp.Common.{ℕ, ◌≡◌, refl, Bool, Option, none, some, List, [], ◌∷◌, ◌==◌, if◌then◌else◌}
use nlcpp.Common.Int.{ℤ, pos}
use nlcpp.Common.Run.{Ends}
use nlcpp.Route.Attributes.{RtnlAddr}
use nlcpp.Route.Fields.{AddressField, PlainField}
use nlcpp.Route.RouteSocket.Answers.{Answered, Failed, declined, answer, function_name}
use nlcpp.TestTool.Line.{Word}
use nlcpp.TestTool.Number.{codes}
use nlcpp.TestTool.Args.Settings.{
  AddressSetting, set_local, set_dev, set_fields, address_words, address_calls,
}
use nlcpp.Route.Caches.{new_manager, link_cache, unwatched_address_cache}
use nlcpp.TestTool.Links.Reports.{adding}
use nlcpp.TestTool.Addresses.{AddressCalls, set_address}
use nlcpp.TestTool.Addresses.Reports.{
  IsStarted, address_command, address_request, address_report, address_command-Reported,
}
use nlcpp.Tests.Errors.{errno, errno-IsErrno}
use nlcpp.Tests.SocketLife.{Sockets, unused}
use nlcpp.Tests.Commands.{Link, named, calls_with, tool, zero_allowed, opened_state, opened, eth0}

-- An address as its local address, and the length of its prefix.
abbrev pub Object : Type 0
Object = Option Word × ℕ

abbrev local_field : AddressField Object Word
local_field = record { get = λ o. o.0; set = λ a o. (pos 0, (a, o.1)) }

abbrev empty_field : AddressField Object Word
empty_field = record { get = λ o. none; set = λ a o. (pos 0, o) }

abbrev whole : PlainField Object ℤ
whole = record { get = λ o. pos 2; set = λ v o. o }

abbrev number : PlainField Object ℕ
number = record { get = λ o. o.1; set = λ v o. (o.0, v) }

abbrev rtnl_addr : RtnlAddr Object Word
rtnl_addr = record {
  addr = record { clone = λ a o. (some a, o); put = λ a o. o };
  local_of = local_field;
  peer_of = empty_field;
  broadcast_of = empty_field;
  multicast_of = empty_field;
  anycast_of = empty_field;
  get_label = λ o. none;
  set_label = λ v o. o;
  ifindex_of = whole;
  family_of = whole;
  prefixlen_of = number;
  scope_of = number;
  get_flags = λ o. 0;
  set_flags_in = λ v o. o;
  unset_flags_in = λ v o. o;
  valid_lifetime_of = number;
  preferred_lifetime_of = number;
  get_create_time = λ o. 0;
  get_last_update_time = λ o. 0;
}

abbrev pub address_calls_here : AddressCalls Sockets Link Object Word ℕ
address_calls_here = record {
  shared = calls_with none;
  rtnl_addr = rtnl_addr;
  rtnl_addr_alloc = λ s. (some (none, 0), s);
  rtnl_link_get_by_name = λ s w. some eth0;
  nl_addr_parse = λ w. some w;
  nl_addr2str = λ w. w;
  af_inet = pos 2;
  af_inet6 = pos 10;
  first_address = λ s. some 1;
  next_address = λ s x. if x == 1 then some 2 else none;
  address_at = λ s x. (some (codes (if x == 1 then "10.0.0.1" else "10.0.0.2")), 24);
  match_filter = λ o f. named o.0 f.0;
}

abbrev address_settings : List AddressSetting
address_settings =
    set_local (codes "10.0.0.2")
    ∷ set_dev (codes "eth0") (pos 0)
    ∷ set_fields (codes "local,prefixlen")
    ∷ []

abbrev wanted : Object
wanted = (some (codes "10.0.0.2"), 0)

started : IsStarted address_calls_here address_settings tool wanted unused
unfolding new_manager unwatched_address_cache link_cache set_address address_calls
started = record {
  with_manager = unused;
  managed = refl;
  with_cache = unused;
  cached = refl;
  blank = (none, 0);
  with_address = unused;
  made = refl;
  with_links = unused;
  linked = refl;
  known = ((refl, refl, refl, refl), refl, (refl, tt));
  has_set = (
    codes "10.0.0.2",
    codes "10.0.0.2",
    (none, 0),
    (some (codes "10.0.0.2"), 0),
    refl,
    refl,
    refl,
    refl,
  );
  dropped = refl;
}

address_command-Reported_example :
    Ends
      (λ _ u.
        (res : Bool) × (w : Sockets) × (u.printed
          ≡ address_report address_calls_here adding res ∷ [])
        × Answered (some 6) (pos 0) opened_state res w)
      (λ x u.
        (u.printed ≡ []) × Failed errno "rtnl_addr_add failed" (some 6) (pos 0) opened_state x u.nl)
      (address_command address_calls_here adding (address_words address_settings) tool)
unfolding declined answer address_request function_name
address_command-Reported_example =
    address_command-Reported address_calls_here errno-IsErrno address_settings tool wanted unused
      opened_state (0, 1) started opened adding zero_allowed
