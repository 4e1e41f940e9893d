-- ===== src/TestTool/Number.antt =====
-- What src/test-tool.cpp uses of the standard library on the words of a line: their comparison with a
-- literal, and `std::stoi`.
use Prim.Native.Char.{code}
use Prim.Native.String.{String}
use nlcpp.Common.{
  ℕ, ◌+◌, ◌-◌, ◌*◌, ◌^◌, ◌≡◌, refl, Bool, true, false, ◌&&◌, Option, none, some, [], ◌∷◌, ◌==◌, leb,
  ltb, if◌then◌else◌, arith,
}
use nlcpp.Common.Int.{ℤ, pos, neg}
use nlcpp.TestTool.Line.{Word, isspace}

-- The characters of a literal.
abbrev pub codes : String → Word
codes String.[] = []
codes (String.◌∷◌ c s) = code c ∷ codes s

-- operator== on strings
abbrev pub word_eq : Word → Word → Bool
word_eq [] [] = true
word_eq [] (d ∷ ds) = false
word_eq (c ∷ cs) [] = false
word_eq (c ∷ cs) (d ∷ ds) = c == d && word_eq cs ds

pub word_eq_refl : (w : Word) → word_eq w w ≡ true
word_eq_refl [] = refl
word_eq_refl (c ∷ cs) = ground (arith, word_eq_refl cs)

is_digit : ℕ → Bool
is_digit c = leb b'0' c && leb c b'9'

unfoldable pub skip_space : Word → Word
skip_space [] = []
skip_space (c ∷ cs) = if isspace c then skip_space cs else c ∷ cs

-- The number that the leading digits stand for, behind those read so far.
unfoldable pub read_digits : ℕ → Word → ℕ
unfolding is_digit
read_digits n [] = n
read_digits n (c ∷ cs) =
    let rest = read_digits (10 * n + (c - b'0')) cs in if is_digit c then rest else n

unfoldable pub read_number : Word → Option ℕ
unfolding is_digit read_digits
read_number [] = none
read_number (c ∷ cs) = if is_digit c then some (read_digits 0 (c ∷ cs)) else none

-- The range of `int`; outside it `std::stoi` throws.
unfoldable pub bounded : Bool → Option ℕ → Option ℤ
bounded negative none = none
bounded true (some n) = if leb n (2 ^ 31) then some (neg n) else none
bounded false (some n) = if ltb n (2 ^ 31) then some (pos n) else none

unfoldable pub read_signed : Word → Option ℤ
unfolding read_number bounded
read_signed [] = none
read_signed (c ∷ cs) =
    if c == b'-'
    then bounded true (read_number cs)
    else if c == b'+'
    then bounded false (read_number cs)
    else bounded false (read_number (c ∷ cs))

-- std::stoi; `none` where it throws.
unfoldable pub stoi : Word → Option ℤ
unfolding skip_space read_signed
stoi w = read_signed (skip_space w)
