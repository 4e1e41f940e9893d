-- ===== src/TestTool/Line/Words.antt =====
-- A line is cut into its words, whatever white space stands between them.
use mathlib.Core.List.{append_assoc, append-nil}
use nlcpp.Common.{
  ℕ, ◌≡◌, ◌≢◌, refl, ap, ◌∙◌, true, false, ◌||◌, Option, none, some, List, [], ◌∷◌, ◌++◌, arith,
  ◌==◌,
}
use nlcpp.TestTool.Line.{
  Word, isspace, Parsed, nothing_parsed, store_word, end_word, scan, parse_line,
}

module _ {ℓ κ} {A : Type ℓ} (P : A → Type κ) where
  abbrev pub All : List A → Type κ
  All [] = Unit {κ}
  All (c ∷ cs) = P c × All cs

abbrev pub IsSpace : ℕ → Type 0
IsSpace c = isspace c ≡ true

-- A character that can stand in a word.
abbrev pub IsWordChar : ℕ → Type 0
IsWordChar c = (isspace c || c == 0) ≡ false

abbrev pub IsWord : Word → Type 0
IsWord w = (w ≢ []) × All IsWordChar w

-- White space with at least one character.
abbrev pub IsGap : List ℕ → Type 0
IsGap g = (g ≢ []) × All IsSpace g

-- The words, each with the white space behind it.
unfoldable pub join : List (Word × List ℕ) → List ℕ
join [] = []
join ((w, g) ∷ r) = w ++ (g ++ join r)

abbrev pub words : List (Word × List ℕ) → List Word
words [] = []
words ((w, g) ∷ r) = w ∷ words r

-- The command is the first word, the arguments are the others.
unfoldable pub of_words : List Word → Parsed
of_words [] = nothing_parsed
of_words (w ∷ ws) = record { command = some w; args = ws }

store_all : List Word → Parsed → Parsed
store_all [] p = p
store_all (w ∷ ws) p = store_all ws (store_word w p)

-- Characters of a word are collected.
scan-word :
    (w cs word : List ℕ) (p : Parsed)
    → All IsWordChar w
    → scan (w ++ cs) word p ≡ scan cs (word ++ w) p
unfolding scan
scan-word [] cs word p h = rw append-nil
scan-word (c ∷ w) cs word p h =
    rw h.0 (
      scan-word w cs (word ++ (c ∷ [])) p h.1
      ∙ ap (λ v. scan cs v p) (append_assoc word (c ∷ []) w))

space-not_zero : (c : ℕ) → IsSpace c → (c == 0) ≡ false
space-not_zero c h = ground arith

-- White space after white space changes nothing.
scan-space : (g cs : List ℕ) (p : Parsed) → All IsSpace g → scan (g ++ cs) [] p ≡ scan cs [] p
unfolding scan end_word
scan-space [] cs p h = refl
scan-space (c ∷ g) cs p h = rw (h.0, space-not_zero c h.0) (scan-space g cs p h.1)

-- White space ends a word.
scan-gap :
    (g cs : List ℕ) (word : Word) (p : Parsed)
    → IsGap g
    → scan (g ++ cs) word p ≡ scan cs [] (end_word word p)
unfolding scan
scan-gap [] cs word p h = absurd (h.0 refl)
scan-gap (c ∷ g) cs word p h =
    rw (h.1.0, space-not_zero c h.1.0) (scan-space g cs (end_word word p) h.1.1)

end_word-store : (w : Word) (p : Parsed) → w ≢ [] → end_word w p ≡ store_word w p
unfolding end_word
end_word-store [] p h = absurd (h refl)
end_word-store (c ∷ w) p h = refl

abbrev pub AreSeparated : List (Word × List ℕ) → Type 0
AreSeparated [] = Unit {0}
AreSeparated ((w, g) ∷ r) = IsWord w × IsGap g × AreSeparated r

scan-join :
    (r : List (Word × List ℕ)) (cs : List ℕ) (p : Parsed)
    → AreSeparated r
    → scan (join r ++ cs) [] p ≡ scan cs [] (store_all (words r) p)
unfolding join store_all
scan-join [] cs p h = refl
scan-join ((w, g) ∷ r) cs p h =
    ap (λ x. scan x [] p)
      (append_assoc w (g ++ join r) cs ∙ ap (◌++◌ w) (append_assoc g (join r) cs))
    ∙ scan-word w (g ++ (join r ++ cs)) [] p h.0.1
    ∙ scan-gap g (join r ++ cs) w p h.1
    ∙ ap (scan (join r ++ cs) []) (end_word-store w p h.0.0)
    ∙ scan-join r cs (store_word w p) h.2

-- The line ends, or a byte 0 hides what follows.
abbrev pub line_end : Option (List ℕ) → List ℕ
line_end none = []
line_end (some hidden) = 0 ∷ hidden

scan-end :
    (hidden : Option (List ℕ)) (word : Word) (p : Parsed)
    → scan (line_end hidden) word p ≡ end_word word p
unfolding scan
scan-end none word p = refl
scan-end (some hidden) word p = refl

-- A last word with no white space behind it.
abbrev pub last_word : Word → List Word
last_word [] = []
last_word (c ∷ w) = (c ∷ w) ∷ []

end_word-all : (w : Word) (p : Parsed) → end_word w p ≡ store_all (last_word w) p
unfolding end_word store_all
end_word-all [] p = refl
end_word-all (c ∷ w) p = refl

store_all-append :
    (xs ys : List Word) (p : Parsed) → store_all ys (store_all xs p) ≡ store_all (xs ++ ys) p
unfolding store_all
store_all-append [] ys p = refl
store_all-append (x ∷ xs) ys p = store_all-append xs ys (store_word x p)

store_all-args :
    (ws args : List Word) (c : Word)
    → store_all ws (record { command = some c; args = args })
      ≡ record { command = some c; args = args ++ ws }
unfolding store_all store_word
store_all-args [] args c = rw append-nil
store_all-args (w ∷ ws) args c =
    store_all-args ws (args ++ (w ∷ [])) c
    ∙ ap (λ x. record { command = some c; args = x }) (append_assoc args (w ∷ []) ws)

store_all-of_words : (ws : List Word) → store_all ws nothing_parsed ≡ of_words ws
unfolding store_all store_word of_words
store_all-of_words [] = refl
store_all-of_words (w ∷ ws) = store_all-args ws [] w

-- A line of words with any white space before, between and behind them is cut into exactly these
-- words: the first is the command and the others are the arguments, in order. The last word may end
-- with the line, and nothing behind a byte 0 is read.
pub parse_line-join :
    (space : List ℕ) (r : List (Word × List ℕ)) (last : Word) (hidden : Option (List ℕ))
    → All IsSpace space
    → AreSeparated r
    → All IsWordChar last
    → parse_line (space ++ (join r ++ (last ++ line_end hidden)))
      ≡ of_words (words r ++ last_word last)
unfolding parse_line
parse_line-join space r last hidden hs hr hl =
    scan-space space (join r ++ (last ++ line_end hidden)) nothing_parsed hs
    ∙ scan-join r (last ++ line_end hidden) nothing_parsed hr
    ∙ scan-word last (line_end hidden) [] (store_all (words r) nothing_parsed) hl
    ∙ scan-end hidden last (store_all (words r) nothing_parsed)
    ∙ end_word-all last (store_all (words r) nothing_parsed)
    ∙ store_all-append (words r) (last_word last) nothing_parsed
    ∙ store_all-of_words (words r ++ last_word last)
