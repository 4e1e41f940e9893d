-- ===== src/Tests/Tool.antt =====
-- The test tool's command line, at the lines of test/route.et.
use nlcpp.Common.{ℕ, ◌≡◌, refl, inl, Option, some, List, [], ◌∷◌, ◌++◌, arith, Bool, true}
use nlcpp.Common.Int.{ℤ, pos}
use nlcpp.TestTool.Line.{Word, parse_line}
use nlcpp.TestTool.Line.Words.{join, of_words, line_end, last_word, words, parse_line-join}
use nlcpp.Common.Run.{M, ok, ◌>>=◌, pure}
use nlcpp.TestTool.Main.{Command, run_line, run_arguments}
use nlcpp.TestTool.Main.Dispatch.{run_line-run_arguments}
use nlcpp.TestTool.Number.{codes, stoi}
use nlcpp.TestTool.Args.{done, exits, parse_link_args, parse_address_args}
use nlcpp.TestTool.Args.Settings.{
  LinkSetting, link_name, link_ifindex, link_words, link_calls, parse_link_args-settings,
  AddressSetting, set_family, set_fields, set_local, set_dev, set_prefixlen, address_words, behind,
  parse_address_args-settings,
}

stoi_reads : stoi (codes " -12x") ≡ some (ℤ.negsuc 11)
unfolding stoi
stoi_reads = refl

link_del :
    parse_line (codes "link-del name eth0\n")
    ≡ record { command = some (codes "link-del"); args = codes "name" ∷ codes "eth0" ∷ [] }
unfolding parse_line
link_del = refl

abbrev del_words : List (Word × List ℕ)
del_words = (codes "link-del", codes " ") ∷ (codes "name", codes "\t ") ∷ []

parse_line-join_example :
    parse_line (codes " " ++ (join del_words ++ (codes "eth0" ++ line_end (some (codes "x")))))
    ≡ of_words (words del_words ++ last_word (codes "eth0"))
parse_line-join_example =
    parse_line-join (codes " ") del_words (codes "eth0") (some (codes "x")) (refl, tt)
      (ground arith) (ground arith)

abbrev some_settings : List LinkSetting
some_settings = link_name (codes "test") ∷ link_ifindex (codes "7") (pos 7) ∷ []

parse_link_args-settings_example :
    (parse_link_args (link_words some_settings) ≡ (link_calls some_settings, done))
    × (parse_link_args (link_words some_settings ++ (codes "type" ∷ []))
        ≡ (link_calls some_settings, exits (codes "type")))
unfolding stoi
parse_link_args-settings_example =
    parse_link_args-settings some_settings (codes "type") [] (refl, tt) (inl refl)

abbrev devices : Word → Option ℤ
devices w = some (pos 2)

abbrev addresses : Word → Bool
addresses w = true

abbrev address_settings : List AddressSetting
address_settings =
    set_dev (codes "eth0") (pos 2)
    ∷ set_local (codes "2002:abcd::43")
    ∷ set_prefixlen (codes "56") (pos 56)
    ∷ set_fields (codes "local,prefixlen")
    ∷ set_family (codes "inet6")
    ∷ []

parse_address_args-settings_example :
    parse_address_args devices addresses (address_words address_settings ++ [])
    ≡ behind devices addresses address_settings (parse_address_args devices addresses [])
unfolding stoi
parse_address_args-settings_example =
    parse_address_args-settings devices addresses address_settings []
      (refl, ((refl, refl, refl, refl), refl, (refl, tt)))

-- Two commands that note their arguments, behind "a" and "d"; an unknown command is noted behind "?".
abbrev noted : List (Command (List (List Word)))
noted =
    record { name = codes "link-add"; action = λ args s. ok tt ((codes "a" ∷ args) ∷ s) }
    ∷ record { name = codes "link-del"; action = λ args s. ok tt ((codes "d" ∷ args) ∷ s) }
    ∷ []

abbrev unknown : Word → M (List (List Word)) (Unit {0})
unknown w s = ok tt ((codes "?" ∷ w ∷ []) ∷ s)

run_line-run_arguments_example :
    run_line noted unknown
      (codes " " ++ (join del_words ++ (codes "eth0" ++ line_end (some (codes "x")))))
      []
    ≡ (run_arguments noted unknown (words del_words ++ last_word (codes "eth0")) >>= λ _. pure tt)
        []
run_line-run_arguments_example =
    run_line-run_arguments noted unknown (codes " ") del_words (codes "eth0") (some (codes "x")) []
      (refl, tt) (ground arith) (ground arith)

link_del_run :
    run_line noted unknown (codes "link-del name eth0\n") []
    ≡ ok tt ((codes "d" ∷ codes "name" ∷ codes "eth0" ∷ []) ∷ [])
unfolding run_line
link_del_run = refl
