-- ===== src/TestTool/Addresses.antt =====
-- The commands address-list, address-add and address-del of src/test-tool.cpp. A RouteAddress is the
-- value `Object` of its `rtnl_addr`, and an Address the pointer of its `nl_addr`; the references to
-- them are those of their classes.
pub mod Reports
pub mod Fields
pub mod Listing
use Prim.Native.String.{String}
use nlcpp.Common.{ℕ, Bool, true, false, Option, none, some, List, [], ◌∷◌, ◌++◌, if◌then◌else◌}
use nlcpp.Common.Int.{ℤ}
use nlcpp.Common.Run.{Run, M, ok, throws, fault, undefined, pure, ◌>>=◌, ◌>>◌, runtime_error}
use nlcpp.Exception.{throw_code}
use nlcpp.Objects.Defs.{Ptr}
use nlcpp.Netlink.Socket.Open.{socket_make, socket_destroy}
use nlcpp.Route.Attributes.{
  RtnlAddr, to_uint32, set_family, set_ifindex, set_prefixlen, set_local, local, peer, broadcast,
  multicast, anycast, prefixlen,
}
use nlcpp.Route.RouteSocket.{add_address, del_address}
use nlcpp.Route.TypedCache.{NlCache, Iterator, visit, filtered_begin, filtered_end}
use nlcpp.TestTool.Line.{Word}
use nlcpp.TestTool.Number.{codes, word_eq}
use nlcpp.TestTool.Args.{
  AddressCall, family_inet, family_inet6, ifindex_is, prefixlen_is, local_is, AddressArgs,
  parse_address_args,
}
use nlcpp.TestTool.State.{
  Tool, print_line, on_nl, lift_object, on_cache, finish_args, for_each, show_bool, show_nat,
}
use nlcpp.TestTool.Links.{LinkCalls}
use nlcpp.Route.Caches.{new_manager, link_cache, unwatched_address_cache, drop_cache, drop_manager}

-- What the commands use besides what the commands about links do. `nl_addr_parse` is that of the
-- constructor of Address, without a family.
pub record AddressCalls (S Link Object Addr Route : Type 0) : Type 0 where
  pub shared : LinkCalls S Link Object Route
  pub rtnl_addr : RtnlAddr Object Addr
  pub rtnl_addr_alloc : S → Option Object × S
  pub rtnl_link_get_by_name : S → Word → Option Link
  pub nl_addr_parse : Word → Option Addr
  pub nl_addr2str : Addr → Word
  pub af_inet : ℤ
  pub af_inet6 : ℤ
  pub first_address : S → Ptr
  pub next_address : S → ℕ → Ptr
  pub address_at : S → ℕ → Object
  pub match_filter : Object → Object → Bool

abbrev pub is_found {ℓ} : {A : Type ℓ} → Option A → Bool
is_found none = false
is_found (some a) = true

module _ {S Link Object Addr Route : Type 0} (c : AddressCalls S Link Object Addr Route) where
  -- RouteAddress()
  check_address : Option Object × S → Run S Object
  check_address (none, s) = throws (runtime_error "Failed to allocate route netlink address") s
  check_address (some addr, s) = ok addr s

  unfoldable pub new_address : M (Tool S) Object
  unfolding check_address
  new_address = on_nl λ s. check_address (c.rtnl_addr_alloc s)

  -- `linkCache.getByName(dev).ifindex()`, where the link may be null
  abbrev pub index_of_link : Option Link → Option ℤ
  index_of_link none = none
  index_of_link (some link) = some (c.shared.rtnl_link.ifindex_of.get link)

  abbrev pub device_index : S → Word → Option ℤ
  device_index s dev = index_of_link (c.rtnl_link_get_by_name s dev)

  abbrev pub is_address : Word → Bool
  is_address w = is_found (c.nl_addr_parse w)

  unfoldable pub set_local_parsed : Option Addr → M Object (Unit {0})
  unfolding set_local
  set_local_parsed none = undefined
  set_local_parsed (some addr) = set_local c.shared.errno c.rtnl_addr addr

  -- The calls of the setters in parseAddressArgs.
  unfoldable pub set_address : List AddressCall → M Object (Unit {0})
  unfolding set_family set_ifindex set_prefixlen set_local_parsed to_uint32
  set_address [] = pure tt
  set_address (family_inet ∷ calls) = do
    set_family c.shared.errno c.rtnl_addr c.af_inet
    set_address calls
  set_address (family_inet6 ∷ calls) = do
    set_family c.shared.errno c.rtnl_addr c.af_inet6
    set_address calls
  set_address (ifindex_is z ∷ calls) = do
    set_ifindex c.shared.errno c.rtnl_addr z
    set_address calls
  set_address (prefixlen_is z ∷ calls) = do
    set_prefixlen c.shared.errno c.rtnl_addr (to_uint32 z)
    set_address calls
  set_address (local_is w ∷ calls) = do set_local_parsed (c.nl_addr_parse w); set_address calls

  -- parseAddressArgs on a new object: the object, and the fields that it returns.
  unfoldable pub args_of : S → List Word → AddressArgs
  unfolding parse_address_args
  args_of s args = parse_address_args (device_index s) is_address args

  unfoldable pub set_from_args : AddressArgs → Object → M (Tool S) (Object × List Word)
  unfolding set_address finish_args
  set_from_args parsed blank = do
    addr ← λ t. lift_object t (set_address parsed.calls blank)
    finish_args parsed.ending
    pure (addr, parsed.fields)

  -- The beginning of all three commands: the manager, its caches, and the object. The cache of links is
  -- a temporary.
  unfoldable pub address_of_args : List Word → M (Tool S) (Object × List Word)
  unfolding new_manager unwatched_address_cache new_address link_cache args_of set_from_args
      drop_cache
  address_of_args args = do
    on_nl (new_manager c.shared.errno c.shared.managers c.shared.netlink_route)
    on_nl (unwatched_address_cache c.shared.errno c.shared.caches)
    blank ← new_address
    on_nl (link_cache c.shared.errno c.shared.caches)
    parsed ← λ t. set_from_args (args_of t.nl args) blank t
    on_nl (drop_cache c.shared.errno c.shared.caches "route/link")
    pure parsed

  -- The end of all three: the destructors of the cache of addresses and of the manager.
  unfoldable pub leave_command : M (Tool S) (Unit {0})
  unfolding drop_cache drop_manager
  leave_command = do
    on_nl (drop_cache c.shared.errno c.shared.caches "route/addr")
    on_nl (drop_manager c.shared.errno c.shared.caches)

  -- addressAdd
  unfoldable pub address_add : List Word → M (Tool S) (Unit {0})
  unfolding address_of_args socket_make add_address print_line socket_destroy leave_command
  address_add args = do
    addr ← address_of_args args
    rsocket ← on_nl (socket_make c.shared.sockets c.shared.netlink_route)
    res ← on_nl (add_address c.shared.errno c.shared.rtnl addr.0)
    print_line (codes "address-add-done " ++ show_bool res)
    on_nl (socket_destroy c.shared.sockets rsocket)
    leave_command

  -- addressDel
  unfoldable pub address_del : List Word → M (Tool S) (Unit {0})
  unfolding address_of_args socket_make del_address print_line socket_destroy leave_command
  address_del args = do
    addr ← address_of_args args
    rsocket ← on_nl (socket_make c.shared.sockets c.shared.netlink_route)
    res ← on_nl (del_address c.shared.errno c.shared.rtnl addr.0)
    print_line (codes "address-del-done " ++ show_bool res)
    on_nl (socket_destroy c.shared.sockets rsocket)
    leave_command

  -- showAddress
  unfoldable pub show_address : Option Addr → Word
  show_address none = codes "none"
  show_address (some addr) = c.nl_addr2str addr

  -- The destructor of the address that a getter returned.
  abbrev pub drop_shown : Option Addr → M Object (Unit {0})
  drop_shown none = pure tt
  drop_shown (some addr) = λ o. ok tt (c.rtnl_addr.addr.put addr o)

  abbrev pub shown_if : Bool → M Object (Option Addr) → M Object Word
  shown_if true get = do addr ← get; drop_shown addr; pure (codes " " ++ show_address addr)
  shown_if false get = pure []

  -- `if (field == "anycast") ... else if (field == "prefixlen") ...`
  abbrev pub anycast_or_prefixlen : Word → M Object Word
  anycast_or_prefixlen field =
      if word_eq field (codes "anycast")
      then shown_if true (anycast c.shared.errno c.rtnl_addr)
      else if word_eq field (codes "prefixlen")
      then (do n ← prefixlen c.shared.errno c.rtnl_addr; pure (codes " " ++ show_nat n))
      else pure []

  -- What one field adds to the line.
  unfoldable pub field_text : Word → M Object Word
  unfolding show_address local peer broadcast multicast anycast prefixlen
  field_text field = do
    local_text ← shown_if (word_eq field (codes "local")) (local c.shared.errno c.rtnl_addr)
    peer_text ← shown_if (word_eq field (codes "peer")) (peer c.shared.errno c.rtnl_addr)
    broadcast_text ←
        shown_if (word_eq field (codes "broadcast")) (broadcast c.shared.errno c.rtnl_addr)
    multicast_text ←
        shown_if (word_eq field (codes "multicast")) (multicast c.shared.errno c.rtnl_addr)
    last_text ← anycast_or_prefixlen field
    pure (local_text ++ (peer_text ++ (broadcast_text ++ (multicast_text ++ last_text))))

  -- The line, behind what has been written.
  unfoldable pub address_item : (written : Word) → List Word → M Object Word
  unfolding field_text
  address_item written [] = pure written
  address_item written (field ∷ fields) = do
    text ← field_text field
    address_item (written ++ text) fields

  abbrev pub line_of : Run Object Word → M (Tool S) Word
  line_of (ok line l) t = ok line t
  line_of (throws x l) t = throws x t
  line_of fault t = fault

  unfoldable pub print_address : List Word → Ptr → M (Tool S) (Unit {0})
  unfolding address_item print_line
  print_address fields none = undefined
  print_address fields (some x) = do
    line ← λ t. line_of (address_item (codes "address-list-item") fields (c.address_at t.nl x)) t
    print_line line

  -- `if (fields.empty()) fields.push_back("local");`
  unfoldable pub or_local : List Word → List Word
  or_local [] = codes "local" ∷ []
  or_local (f ∷ fs) = f ∷ fs

  -- The cache as its iterators see it, with one filter, at the pointer 0.
  abbrev pub filtered_addresses : S → Object → NlCache
  filtered_addresses s filter = record {
    first = c.first_address s;
    next = c.next_address s;
    matches = λ x f. c.match_filter (c.address_at s x) filter;
  }

  -- The loop of addressList over the cache as it is, and its last line. The iterator of the end has a
  -- default constructed filter.
  unfoldable pub list_addresses :
      (fuel : ℕ) → (fields : List Word) → NlCache → M (Tool S) (Unit {0})
  unfolding filtered_begin new_address visit filtered_end for_each print_address print_line
  list_addresses fuel fields cache = do
    begin ← on_cache (filtered_begin cache fuel (some 0))
    blank ← new_address
    addrs ← on_cache (visit cache fuel fuel (filtered_end cache 0) begin)
    for_each (print_address fields) addrs
    print_line (codes "address-list-done")

  -- addressList
  unfoldable pub address_list : (fuel : ℕ) → List Word → M (Tool S) (Unit {0})
  unfolding address_of_args or_local list_addresses leave_command
  address_list fuel args = do
    filter ← address_of_args args
    λ t. list_addresses fuel (or_local filter.1) (filtered_addresses t.nl filter.0) t
    leave_command
