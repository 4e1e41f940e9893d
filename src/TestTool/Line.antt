-- ===== src/TestTool/Line.antt =====
-- The loop of `main` in src/test-tool.cpp that cuts an input line into a command and its arguments.
-- Characters are their codes. The list is the buffer of `getline` up to, and without, the byte 0
-- that `getline` puts behind the line; a byte 0 of the line itself ends the loop too.
pub mod Words
use nlcpp.Common.{
  ℕ, ◌≡◌, Bool, true, false, ◌&&◌, ◌||◌, Option, none, some, List, [], ◌∷◌, ◌++◌, ◌==◌, leb,
  if◌then◌else◌,
}

abbrev pub Word : Type 0
Word = List ℕ

-- isspace of the C locale: tab to carriage return, and the blank.
abbrev pub isspace : ℕ → Bool
isspace c = (leb 9 c && leb c 13) || c == 32

-- The two variables that the loop fills.
pub record Parsed : Type 0 where
  pub command : Option Word
  pub args : List Word

abbrev pub nothing_parsed : Parsed
nothing_parsed = record { command = none; args = [] }

-- `if (!command) command.emplace(last, cur); else args.emplace_back(last, cur);`
unfoldable pub store_word : Word → Parsed → Parsed
store_word w p = elim p.command [
  | none ↦ record p { command = some w }
  | some c ↦ record p { args = p.args ++ (w ∷ []) }
]

-- The body of the `if`: `last < cur` says that the characters since `last` are some.
unfoldable pub end_word : Word → Parsed → Parsed
unfolding store_word
end_word [] p = p
end_word (c ∷ cs) p = store_word (c ∷ cs) p

-- The loop; `word` holds the characters from `last` up to `cur`.
unfoldable pub scan : List ℕ → (word : Word) → Parsed → Parsed
unfolding end_word
scan [] word p = end_word word p
scan (c ∷ cs) word p =
    let next_word = scan cs [] (end_word word p) in
    let same_word = scan cs (word ++ (c ∷ [])) p in
    if isspace c || c == 0 then (if c == 0 then end_word word p else next_word) else same_word

unfoldable pub parse_line : List ℕ → Parsed
unfolding scan
parse_line line = scan line [] nothing_parsed
