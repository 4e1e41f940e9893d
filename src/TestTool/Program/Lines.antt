-- ===== src/TestTool/Program/Lines.antt =====
-- Which command a line of input runs.
use nlcpp.Common.{ℕ, ◌≡◌, refl, ap, ◌∙◌, Option, some, List, ◌∷◌, ◌++◌}
use nlcpp.Common.Run.{M}
use nlcpp.TestTool.Line.{Word}
use nlcpp.TestTool.Number.{codes}
use nlcpp.TestTool.Line.Words.{
  All, IsSpace, IsWordChar, AreSeparated, join, of_words, line_end, last_word, words,
  parse_line-join,
}
use nlcpp.TestTool.Main.{find_command, run_entered, run_parsed, run_line}
use nlcpp.TestTool.Links.{link_list, link_add, link_del}
use nlcpp.TestTool.Addresses.{AddressCalls, address_list, address_add, address_del}
use nlcpp.TestTool.Program.{Program, WatchCalls, on_tool, report_unknown, watch_command, commands}

pub data CommandName : Type 0 where
  link_listing link_adding link_deleting : CommandName
  address_listing address_adding address_deleting address_watching : CommandName

unfoldable pub name_of : CommandName → Word
name_of link_listing = codes "link-list"
name_of link_adding = codes "link-add"
name_of link_deleting = codes "link-del"
name_of address_listing = codes "address-list"
name_of address_adding = codes "address-add"
name_of address_deleting = codes "address-del"
name_of address_watching = codes "address-watch"

module _ {S Link Object Addr Route : Type 0} (c : AddressCalls S Link Object Addr Route)
    (wc : WatchCalls S) (fuel : ℕ) where
  unfoldable pub action_of : CommandName → List Word → M (Program S) (Unit {0})
  action_of link_listing args = on_tool (link_list c.shared fuel args)
  action_of link_adding args = on_tool (link_add c.shared args)
  action_of link_deleting args = on_tool (link_del c.shared args)
  action_of address_listing args = on_tool (address_list c fuel args)
  action_of address_adding args = on_tool (address_add c args)
  action_of address_deleting args = on_tool (address_del c args)
  action_of address_watching args = watch_command c wc fuel args

  found :
      (n : CommandName) (args : List Word) (p : Program S)
      → run_parsed (commands c wc fuel) report_unknown (some (name_of n)) args p
        ≡ action_of n args p
  unfolding run_parsed run_entered find_command commands name_of action_of
  found link_listing args p = refl
  found link_adding args p = refl
  found link_deleting args p = refl
  found address_listing args p = refl
  found address_adding args p = refl
  found address_deleting args p = refl
  found address_watching args p = refl

  -- A line of input whose first word is the name of a command, with any white space before, between and
  -- behind its words, runs that command with the other words as its arguments.
  pub run_line-action :
      (n : CommandName) (args : List Word) (space : List ℕ) (r : List (Word × List ℕ)) (last : Word)
      (hidden : Option (List ℕ)) (p : Program S)
      → All IsSpace space
      → AreSeparated r
      → All IsWordChar last
      → words r ++ last_word last ≡ name_of n ∷ args
      → run_line
          (commands c wc fuel)
          report_unknown
          (space ++ (join r ++ (last ++ line_end hidden)))
          p
        ≡ action_of n args p
  unfolding run_line of_words
  run_line-action n args space r last hidden p hs hr hl same =
      ap (λ q. run_parsed (commands c wc fuel) report_unknown q.command q.args p)
        (parse_line-join space r last hidden hs hr hl ∙ ap of_words same)
      ∙ found n args p
