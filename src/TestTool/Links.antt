-- ===== src/TestTool/Links.antt =====
-- The commands link-list, link-add and link-del of src/test-tool.cpp. A RouteLink is the value `Link`
-- of its `rtnl_link`; the references to it are those of its class.
pub mod Reports
pub mod Listing
use Prim.Native.String.{String}
use nlcpp.Common.{ℕ, Bool, true, false, Option, none, some, List, [], ◌∷◌, ◌++◌}
use nlcpp.Common.Int.{ℤ}
use nlcpp.Common.Run.{Run, M, ok, throws, fault, undefined, throw, pure, ◌>>=◌, ◌>>◌, runtime_error}
use nlcpp.Exception.{Errno, throw_code}
use nlcpp.Objects.Defs.{Ptr}
use nlcpp.Netlink.Socket.Open.{SocketCalls, socket_make, socket_destroy}
use nlcpp.Netlink.Socket.Calls.{NlCalls}
use nlcpp.Route.Caches.{CacheCalls, new_manager, link_cache, drop_cache, drop_manager}
use nlcpp.Route.RouteLink.Attributes.{RtnlLink, set_link_name, set_link_type, set_link_ifindex}
use nlcpp.Route.RouteSocket.{Rtnl, add_link, del_link}
use nlcpp.Route.TypedCache.{NlCache, Iterator, visit, filtered_begin, filtered_end}
use nlcpp.TestTool.Line.{Word}
use nlcpp.TestTool.Number.{codes}
use nlcpp.TestTool.Args.{LinkCall, name_is, ifindex_is, type_is, parse_link_args}
use nlcpp.TestTool.State.{
  Tool, print_line, on_nl, lift_object, on_cache, finish_args, for_each, show_bool, show_int,
}

-- What the commands use: the library's own functions take their parameters from here. `link_at` is
-- what a pointer of a link cache points to. The caches of a manager are known by the kind that
-- `nl_cache_mngr_add` was given, with its result code.
pub record LinkCalls (S Link Addr Route : Type 0) : Type 0 where
  pub errno : Errno
  pub rtnl_link : RtnlLink Link Word
  pub rtnl : Rtnl S Addr Link Route
  pub sockets : SocketCalls S
  pub managers : NlCalls S
  pub netlink_route : ℤ
  pub rtnl_link_alloc : S → Option Link × S
  pub caches : CacheCalls S
  pub first_link : S → Ptr
  pub next_link : S → ℕ → Ptr
  pub link_at : S → ℕ → Link
  pub match_filter : Link → Link → Bool

module _ {S Link Addr Route : Type 0} (c : LinkCalls S Link Addr Route) where
  -- RouteLink()
  check_link : Option Link × S → Run S Link
  check_link (none, s) = throws (runtime_error "Failed to allocate route netlink link") s
  check_link (some link, s) = ok link s

  unfoldable pub new_link : M (Tool S) Link
  unfolding check_link
  new_link = on_nl λ s. check_link (c.rtnl_link_alloc s)

  -- The calls of the setters in parseLinkArgs.
  unfoldable pub set_link : List LinkCall → M Link (Unit {0})
  unfolding set_link_name set_link_ifindex set_link_type
  set_link [] = pure tt
  set_link (name_is v ∷ calls) = do set_link_name c.rtnl_link v; set_link calls
  set_link (ifindex_is z ∷ calls) = do set_link_ifindex c.rtnl_link z; set_link calls
  set_link (type_is v ∷ calls) = do set_link_type c.rtnl_link v; set_link calls

  -- `RouteLink link; parseLinkArgs(link, args);`
  unfoldable pub link_of_args : List Word → M (Tool S) Link
  unfolding new_link parse_link_args set_link finish_args
  link_of_args args = do
    blank ← new_link
    link ← λ t. lift_object t (set_link (parse_link_args args).0 blank)
    finish_args (parse_link_args args).1
    pure link

  -- linkAdd
  unfoldable pub link_add : List Word → M (Tool S) (Unit {0})
  unfolding link_of_args socket_make add_link print_line socket_destroy
  link_add args = do
    link ← link_of_args args
    rsocket ← on_nl (socket_make c.sockets c.netlink_route)
    res ← on_nl (add_link c.errno c.rtnl link)
    print_line (codes "link-add-done " ++ show_bool res)
    on_nl (socket_destroy c.sockets rsocket)

  -- linkDel
  unfoldable pub link_del : List Word → M (Tool S) (Unit {0})
  unfolding link_of_args socket_make del_link print_line socket_destroy
  link_del args = do
    link ← link_of_args args
    rsocket ← on_nl (socket_make c.sockets c.netlink_route)
    res ← on_nl (del_link c.errno c.rtnl link)
    print_line (codes "link-del-done " ++ show_bool res)
    on_nl (socket_destroy c.sockets rsocket)

  -- The cache as its iterators see it, with one filter, at the pointer 0.
  abbrev pub filtered_cache : S → Link → NlCache
  filtered_cache s filter = record {
    first = c.first_link s;
    next = c.next_link s;
    matches = λ x f. c.match_filter (c.link_at s x) filter;
  }

  abbrev pub item_name : Option Word → Word
  item_name none = []
  item_name (some name) = codes " " ++ name

  -- The line for a link, from what its getters return.
  unfoldable pub link_item : Link → Word
  link_item link =
      codes "link-list-item "
      ++ (show_int (c.rtnl_link.ifindex_of.get link) ++ item_name (c.rtnl_link.get_name link))

  unfoldable pub print_link : Ptr → M (Tool S) (Unit {0})
  unfolding print_line link_item
  print_link none = undefined
  print_link (some x) = λ t. print_line (link_item (c.link_at t.nl x)) t

  -- The loop of linkList over the cache as it is, and its last line. The iterator of the end has a
  -- default constructed filter.
  unfoldable pub list_links : (fuel : ℕ) → NlCache → M (Tool S) (Unit {0})
  unfolding filtered_begin new_link visit filtered_end for_each print_link print_line
  list_links fuel cache = do
    begin ← on_cache (filtered_begin cache fuel (some 0))
    blank ← new_link
    links ← on_cache (visit cache fuel fuel (filtered_end cache 0) begin)
    for_each print_link links
    print_line (codes "link-list-done")

  -- linkList, with the destructors of its cache and its manager
  unfoldable pub link_list : (fuel : ℕ) → List Word → M (Tool S) (Unit {0})
  unfolding new_manager link_cache link_of_args list_links drop_cache drop_manager
  link_list fuel args = do
    on_nl (new_manager c.errno c.managers c.netlink_route)
    on_nl (link_cache c.errno c.caches)
    filter ← link_of_args args
    λ t. list_links fuel (filtered_cache t.nl filter) t
    on_nl (drop_cache c.errno c.caches "route/link")
    on_nl (drop_manager c.errno c.caches)
