-- ===== src/TestTool/Main/Dispatch.antt =====
-- A line of input does what the program does with the line's words as its arguments.
use nlcpp.Common.{ℕ, ◌≡◌, refl, ap, ◌∙◌, Option, none, some, List, [], ◌∷◌, ◌++◌}
use nlcpp.Common.Int.{ℤ, pos}
use nlcpp.Common.Run.{Run, M, ok, throws, fault, and_then, ◌>>=◌, pure}
use nlcpp.TestTool.Line.{Word}
use nlcpp.TestTool.Line.Words.{
  All, IsSpace, IsWordChar, AreSeparated, join, of_words, line_end, last_word, words,
  parse_line-join,
}
use nlcpp.TestTool.Main.{
  Command, find_command, run_found, run_entered, run_parsed, run_arguments, run_line,
}

-- To look at a status and drop it changes nothing.
drop_status :
    {S : Type 0} (r : Run S (Unit {0})) (z : ℤ)
    → r ≡ and_then (and_then (and_then r (λ _. pure z)) (λ x. pure (some x))) (λ _. pure tt)
drop_status (ok a s) z = refl
drop_status (throws e s) z = refl
drop_status fault z = refl

module _ {S : Type 0} (commands : List (Command S)) (report_unknown : Word → M S (Unit {0})) where
  entered-found :
      (cmd : Option (Command S)) (name : Word) (args : List Word) (s : S)
      → run_entered commands report_unknown cmd name args s
        ≡ ((run_found commands report_unknown cmd name args >>= λ z. pure (some z)) >>= λ _.
              pure tt)
            s
  unfolding run_entered run_found
  entered-found none name args s = drop_status (report_unknown name s) (pos 1)
  entered-found (some cmd) name args s = drop_status (cmd.action args s) (pos 0)

  parsed-arguments :
      (ws : List Word) (s : S)
      → run_parsed commands report_unknown (of_words ws).command (of_words ws).args s
        ≡ (run_arguments commands report_unknown ws >>= λ _. pure tt) s
  unfolding run_parsed run_arguments of_words
  parsed-arguments [] s = refl
  parsed-arguments (w ∷ ws) s =
      entered-found (find_command commands report_unknown commands w) w ws s

  -- A line of words, with any white space before, between and behind them, does exactly what the
  -- program does when it is started with these words as its arguments, exceptions and the report of
  -- an unknown command included; only the exit status is dropped. A line without words does nothing.
  pub run_line-run_arguments :
      (space : List ℕ) (r : List (Word × List ℕ)) (last : Word) (hidden : Option (List ℕ)) (s : S)
      → All IsSpace space
      → AreSeparated r
      → All IsWordChar last
      → run_line commands report_unknown (space ++ (join r ++ (last ++ line_end hidden))) s
        ≡ (run_arguments commands report_unknown (words r ++ last_word last) >>= λ _. pure tt) s
  unfolding run_line
  run_line-run_arguments space r last hidden s hs hr hl =
      ap (λ p. run_parsed commands report_unknown p.command p.args s)
        (parse_line-join space r last hidden hs hr hl)
      ∙ parsed-arguments (words r ++ last_word last) s
