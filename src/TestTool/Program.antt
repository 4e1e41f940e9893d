-- ===== src/TestTool/Program.antt =====
-- The test tool as a whole, of src/test-tool.cpp: its table of commands, on the state of the commands
-- about links and addresses and of the variables that address-watch fills.
pub mod Lines
pub mod Invariant
pub mod Listing
use nlcpp.Common.{ℕ, Bool, Option, none, some, List, [], ◌∷◌, ◌++◌}
use nlcpp.Common.Int.{ℤ, pos}
use nlcpp.Common.Run.{Run, M, ok, throws, fault, ◌>>=◌, ◌>>◌, pure}
use nlcpp.Route.Watch.{Watching}
use nlcpp.TestTool.Line.{Word}
use nlcpp.TestTool.Number.{codes}
use nlcpp.TestTool.State.{Tool, on_nl}
use nlcpp.Route.Caches.{new_manager, share_cache}
use nlcpp.TestTool.Links.{LinkCalls, link_list, link_add, link_del}
use nlcpp.TestTool.Addresses.{AddressCalls, address_list, address_add, address_del}
use nlcpp.TestTool.Watches.{Loop, Delivery, address_watch, managers_ready}
use nlcpp.TestTool.Main.{Command, run_line}

pub record Program (S : Type 0) : Type 0 where
  pub tool : Tool S
  pub poll_fds : List ℤ
  pub managers : List (Watching (List Word))
  pub caches : List ℕ

-- What address-watch uses besides: the descriptor of the manager, and the local address of an object,
-- as showAddress writes it.
pub record WatchCalls (S : Type 0) : Type 0 where
  pub nl_cache_mngr_get_fd : S → ℤ
  pub local_text : ℕ → Word

module _ {S : Type 0} where
  abbrev pub lift_tool {ℓ} : {A : Type ℓ} → Program S → Run (Tool S) A → Run (Program S) A
  lift_tool p (ok a t) = ok a (record p { tool = t })
  lift_tool p (throws x t) = throws x (record p { tool = t })
  lift_tool p fault = fault

  abbrev pub on_tool {ℓ} : {A : Type ℓ} → M (Tool S) A → M (Program S) A
  on_tool m p = lift_tool p (m p.tool)

  abbrev pub loop_of : Program S → Loop
  loop_of p = record {
    printed = p.tool.printed;
    poll_fds = p.poll_fds;
    managers = p.managers;
    caches = p.caches;
  }

  abbrev pub with_loop : Program S → Loop → Program S
  with_loop p l = record {
    tool = record p.tool { printed = l.printed };
    poll_fds = l.poll_fds;
    managers = l.managers;
    caches = l.caches;
  }

  abbrev pub lift_loop {ℓ} : {A : Type ℓ} → Program S → Run Loop A → Run (Program S) A
  lift_loop p (ok a l) = ok a (with_loop p l)
  lift_loop p (throws x l) = throws x (with_loop p l)
  lift_loop p fault = fault

  abbrev pub on_loop {ℓ} : {A : Type ℓ} → M Loop A → M (Program S) A
  on_loop m p = lift_loop p (m (loop_of p))

  -- `cerr << "Unknown command: '" << *command << "'" << endl;`
  unfoldable pub report_unknown : Word → M (Program S) (Unit {0})
  report_unknown name = on_tool λ t.
      ok tt (record t {
        errors = t.errors ++ ((codes "Unknown command: '" ++ (name ++ codes "'")) ∷ []);
      })

module _ {S Link Object Addr Route : Type 0} (c : AddressCalls S Link Object Addr Route)
    (wc : WatchCalls S) (fuel : ℕ) where
  -- addressWatch, which does not look at its arguments; its manager has been made when the cache is
  -- asked for. The reference to the cache is taken last here, which nothing before it depends on.
  unfoldable pub watch_command : List Word → M (Program S) (Unit {0})
  unfolding new_manager address_watch
  watch_command args = do
    on_tool (on_nl (new_manager c.shared.errno c.shared.managers c.shared.netlink_route))
    err ← on_tool (
        on_nl λ s.
          ok (c.shared.caches.nl_cache_mngr_add "route/addr" s).0
            (c.shared.caches.nl_cache_mngr_add "route/addr" s).1)
    fd ← on_tool (on_nl λ s. ok (wc.nl_cache_mngr_get_fd s) s)
    on_loop (address_watch c.shared.errno wc.local_text (pos 0) err fd)
    on_tool (on_nl (share_cache c.shared.errno c.shared.caches "route/addr"))

  -- The table `commands`; a loop over a cache has the fuel.
  unfoldable pub commands : List (Command (Program S))
  unfolding link_list link_add link_del address_list address_add address_del watch_command
  commands =
      record { name = codes "link-list"; action = λ args. on_tool (link_list c.shared fuel args) }
      ∷ record { name = codes "link-add"; action = λ args. on_tool (link_add c.shared args) }
      ∷ record { name = codes "link-del"; action = λ args. on_tool (link_del c.shared args) }
      ∷ record { name = codes "address-list"; action = λ args. on_tool (address_list c fuel args) }
      ∷ record { name = codes "address-add"; action = λ args. on_tool (address_add c args) }
      ∷ record { name = codes "address-del"; action = λ args. on_tool (address_del c args) }
      ∷ record { name = codes "address-watch"; action = watch_command }
      ∷ []

  -- What `main` does after a call of `poll`: the events of the managers, and then a line if there is one.
  abbrev pub run_input : Option (List ℕ) → M (Program S) (Unit {0})
  run_input none = pure tt
  run_input (some line) = run_line commands report_unknown line

  unfoldable pub polled :
      (data_of : ℕ → Delivery) → (revents : List Bool) → Option (List ℕ) → M (Program S) (Unit {0})
  unfolding managers_ready run_line commands report_unknown
  polled data_of revents input = do
    on_loop (managers_ready c.shared.errno wc.local_text data_of revents 0)
    run_input input
