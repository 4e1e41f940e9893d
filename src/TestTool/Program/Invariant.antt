-- ===== src/TestTool/Program/Invariant.antt =====
-- What stays true while the test tool runs.
use nlcpp.Common.{
  ℕ, Bool, suc, ◌≡◌, ◌≢◌, Option, none, some, List, [], ◌∷◌, Bool-cases, inl, inr, length,
}
use mathlib.Core.Path.{subst}
use nlcpp.Common.Int.{pos}
use nlcpp.Common.Run.{
  Run, ok, throws, fault, Ends, returns, raises, IfOk, IfOk-then, Ends-map, Thrown,
}
use nlcpp.Exception.{IsErrno, int_min}
use nlcpp.TestTool.Line.{Word, parse_line}
use nlcpp.TestTool.Number.{word_eq}
use nlcpp.TestTool.Main.{Command, find_command, run_entered, run_parsed, run_line}
use nlcpp.TestTool.State.{Tool, on_nl, lift_run}
use nlcpp.TestTool.Watches.{Loop, Delivery, managers_ready}
use nlcpp.TestTool.Watches.Invariant.{IsLoop}
use nlcpp.TestTool.Watches.Events.{AreResults, managers_ready-lines}
use nlcpp.TestTool.Watches.Starting.{address_watch-IsLoop}
use nlcpp.Route.Caches.{new_manager}
use nlcpp.TestTool.Links.{link_list, link_add, link_del}
use nlcpp.TestTool.Addresses.{AddressCalls, address_list, address_add, address_del}
use nlcpp.TestTool.Program.{
  Program, WatchCalls, on_tool, on_loop, lift_tool, lift_loop, loop_of, report_unknown,
  watch_command, commands, polled, run_input,
}

module _ {S Link Object Addr Route : Type 0} (c : AddressCalls S Link Object Addr Route)
    (wc : WatchCalls S) (fuel : ℕ) where
  -- The descriptors, the managers and the caches are in step, and each manager tells its callback.
  abbrev pub IsProgram : Program S → Type 0
  IsProgram p = IsLoop c.shared.errno wc.local_text (loop_of p)

  abbrev pub Keeps : Run (Program S) (Unit {0}) → Type 0
  Keeps r = IfOk (λ _ v. IsProgram v) r

  -- What is printed does not matter.
  lift_tool-IsProgram :
      {A : Type 0} (p : Program S) (r : Run (Tool S) A)
      → IsProgram p
      → IfOk (λ _ v. IsProgram v) (lift_tool p r)
  lift_tool-IsProgram p (ok a t) h = record { fds = h.fds; kept = h.kept; told = h.told }
  lift_tool-IsProgram p (throws x t) h = tt
  lift_tool-IsProgram p fault h = tt

  lift_loop-IsProgram :
      {Q : Thrown → Loop → Type 0} (p : Program S) {r : Run Loop (Unit {0})}
      → Ends (λ _ l. IsLoop c.shared.errno wc.local_text l) Q r
      → Keeps (lift_loop p r)
  lift_loop-IsProgram p (returns h) = h
  lift_loop-IsProgram p (raises q) = tt

  abbrev AllKeep : List (Command (Program S)) → Type 0
  AllKeep [] = Unit {0}
  AllKeep (cmd ∷ cmds) =
      ((args : List Word) (p : Program S) → IsProgram p → Keeps (cmd.action args p)) × AllKeep cmds

  entered-Keeps :
      (all cmds : List (Command (Program S))) (name : Word) (args : List Word) (p : Program S)
      → AllKeep cmds
      → IsProgram p
      → Keeps
          (run_entered all report_unknown (find_command all report_unknown cmds name) name args p)
  unfolding run_entered find_command report_unknown
  entered-Keeps all [] name args p hs h = record { fds = h.fds; kept = h.kept; told = h.told }
  entered-Keeps all (cmd ∷ cmds) name args p hs h = elim (Bool-cases (word_eq cmd.name name)) [
    | inl same ↦ rw same (hs.0 args p h)
    | inr other ↦ rw other (entered-Keeps all cmds name args p hs.1 h)
  ]

  parsed-Keeps :
      (cmds : List (Command (Program S))) (command : Option Word) (args : List Word) (p : Program S)
      → AllKeep cmds
      → IsProgram p
      → Keeps (run_parsed cmds report_unknown command args p)
  unfolding run_parsed
  parsed-Keeps cmds none args p hs h = h
  parsed-Keeps cmds (some name) args p hs h = entered-Keeps cmds cmds name args p hs h

  module _ (he : IsErrno c.shared.errno)
      (bounded : (s : S) → (c.shared.caches.nl_cache_mngr_add "route/addr" s).0 ≢ int_min) where
    zero≢int_min : pos 0 ≢ int_min
    zero≢int_min h = cc

    watch_command-Keeps :
        (args : List Word) (p : Program S) → IsProgram p → Keeps (watch_command c wc fuel args p)
    unfolding watch_command
    watch_command-Keeps args p h =
        IfOk-then (λ _ v. IsProgram v) (λ _ v. IsProgram v)
          (on_tool (on_nl (new_manager c.shared.errno c.shared.managers c.shared.netlink_route)) p)
          _
          (lift_tool-IsProgram p
            (lift_run p.tool
              (new_manager c.shared.errno c.shared.managers c.shared.netlink_route p.tool.nl))
            h)
          λ _ v k.
            let err = (c.shared.caches.nl_cache_mngr_add "route/addr" v.tool.nl).0 in
            let asked = (c.shared.caches.nl_cache_mngr_add "route/addr" v.tool.nl).1 in
            IfOk-then (λ _ u. IsProgram u) (λ _ u. IsProgram u) _ _
              (lift_loop-IsProgram (record v { tool = record v.tool { nl = asked } })
                (Ends-map (λ _ l j. j.0) (λ x l j. j)
                  (address_watch-IsLoop c.shared.errno wc.local_text he (pos 0) err _ (loop_of v)
                    (record { fds = k.fds; kept = k.kept; told = k.told }) zero≢int_min
                    (bounded v.tool.nl))))
              (λ _ u j. record { fds = j.fds; kept = j.kept; told = j.told })

    commands-AllKeep : AllKeep (commands c wc fuel)
    unfolding commands
    commands-AllKeep = (
      (λ args p h. lift_tool-IsProgram p (link_list c.shared fuel args p.tool) h),
      (
        (λ args p h. lift_tool-IsProgram p (link_add c.shared args p.tool) h),
        (
          (λ args p h. lift_tool-IsProgram p (link_del c.shared args p.tool) h),
          (
            (λ args p h. lift_tool-IsProgram p (address_list c fuel args p.tool) h),
            (
              (λ args p h. lift_tool-IsProgram p (address_add c args p.tool) h),
              (
                (λ args p h. lift_tool-IsProgram p (address_del c args p.tool) h),
                ((λ args p h. watch_command-Keeps args p h), tt),
              ),
            ),
          ),
        ),
      ),
    )

    -- The rounds of the loop in `main` that return, one after the other. After each call of `poll` there
    -- is one event, or none, for each descriptor behind that of standard input.
    pub data Rounds : Program S → Program S → Type 0 where
      start : {p : Program S} → Rounds p p
      round :
          {p v u : Program S} (data_of : ℕ → Delivery) (revents : List Bool)
          (input : Option (List ℕ))
          → AreResults c.shared.errno wc.local_text he data_of revents 0
          → suc (length revents) ≡ length p.poll_fds
          → polled c wc fuel data_of revents input p ≡ ok tt v
          → Rounds v u
          → Rounds p u

    input-Keeps :
        (input : Option (List ℕ)) (p : Program S)
        → IsProgram p
        → Keeps (run_input c wc fuel input p)
    unfolding run_line
    input-Keeps none p h = h
    input-Keeps (some line) p h =
        parsed-Keeps (commands c wc fuel) (parse_line line).command (parse_line line).args p
          commands-AllKeep h

    -- One round.
    polled-Keeps :
        (data_of : ℕ → Delivery) (revents : List Bool) (input : Option (List ℕ)) (p : Program S)
        → AreResults c.shared.errno wc.local_text he data_of revents 0
        → suc (length revents) ≡ length p.poll_fds
        → IsProgram p
        → Keeps (polled c wc fuel data_of revents input p)
    unfolding polled
    polled-Keeps data_of revents input p rs len h =
        let l = loop_of p in
        IfOk-then (λ _ v. IsProgram v) (λ _ v. IsProgram v)
          (on_loop (managers_ready c.shared.errno wc.local_text data_of revents 0) p) _
          (lift_loop-IsProgram p (
            Ends-map (λ _ k j. j.0) (λ x k j. j)
              (managers_ready-lines c.shared.errno wc.local_text he data_of revents l h rs len)))
          (λ _ v k. input-Keeps input v k)

    -- Over any number of rounds of the loop in `main` that return, with whatever events and lines: if there
    -- are as many managers and caches as descriptors behind that of standard input, and each manager
    -- tells the callback of its address-watch, then this is so after them. No result of nl_cache_mngr_add
    -- or nl_cache_mngr_data_ready is the least `int`.
    pub Rounds-IsProgram : {p u : Program S} → Rounds p u → IsProgram p → IsProgram u
    Rounds-IsProgram start h = h
    Rounds-IsProgram (round {p} {v} data_of revents input rs len returned rest) h =
        Rounds-IsProgram rest (
          subst {A = Run (Program S) (Unit {0})} Keeps returned
            (polled-Keeps data_of revents input p rs len h))
