-- ===== src/TestTool/Main.antt =====
-- The dispatch of commands in `main` of src/test-tool.cpp: of the arguments of the program, and of a
-- line of its input. What a command does, and the report of an unknown one, are parameters, on a
-- state `S`.
pub mod Dispatch
use nlcpp.Common.{
  ℕ, zero, suc, Bool, true, false, ◌&&◌, ◌==◌, Option, none, some, List, [], ◌∷◌, if◌then◌else◌,
}
use nlcpp.Common.Int.{ℤ, pos}
use nlcpp.Common.Run.{M, ◌>>=◌, ◌>>◌, pure}
use nlcpp.TestTool.Number.{word_eq}
use nlcpp.TestTool.Line.{Word, Parsed, parse_line}

pub record Command (S : Type 0) : Type 0 where
  pub name : Word
  pub action : List Word → M S (Unit {0})

module _ {S : Type 0} (commands : List (Command S)) (report_unknown : Word → M S (Unit {0})) where
  -- The first command with the name.
  unfoldable pub find_command : List (Command S) → Word → Option (Command S)
  find_command [] name = none
  find_command (cmd ∷ cmds) name =
      let rest = find_command cmds name in if word_eq cmd.name name then some cmd else rest

  -- The end of the program with arguments, with the status.
  unfoldable pub run_found : Option (Command S) → Word → List Word → M S ℤ
  run_found (some cmd) name args = do cmd.action args; pure (pos 0)
  run_found none name args = do report_unknown name; pure (pos 1)

  -- `main` up to the `return` for `argc > 1`, on the arguments behind the program's name; `none` where
  -- it goes on to read lines.
  unfoldable pub run_arguments : List Word → M S (Option ℤ)
  unfolding run_found find_command
  run_arguments [] = pure none
  run_arguments (name ∷ args) = do
    status ← run_found (find_command commands name) name args
    pure (some status)

  -- A command of a line, found or not.
  unfoldable pub run_entered : Option (Command S) → Word → List Word → M S (Unit {0})
  run_entered (some cmd) name args = cmd.action args
  run_entered none name args = report_unknown name

  -- `if (!command) continue;` and the loop over the commands
  unfoldable pub run_parsed : Option Word → List Word → M S (Unit {0})
  unfolding run_entered find_command
  run_parsed none args = pure tt
  run_parsed (some name) args = run_entered (find_command commands name) name args

  -- What `main` does with a line that it reads.
  unfoldable pub run_line : List ℕ → M S (Unit {0})
  unfolding run_parsed parse_line
  run_line line = run_parsed (parse_line line).command (parse_line line).args

  -- The lines of the input, up to its end; an exception ends the program.
  unfoldable pub run_lines : List (List ℕ) → M S (Unit {0})
  unfolding run_line
  run_lines [] = pure tt
  run_lines (line ∷ lines) = do run_line line; run_lines lines
