-- ===== src/TestTool/State.antt =====
-- What the commands of src/test-tool.cpp have in common: the lines that they print, and how they end
-- over their arguments. The state of libnl and the kernel is `S`.
use nlcpp.Common.{ℕ, zero, suc, ◌+◌, ◌/◌, ◌%◌, Bool, List, [], ◌∷◌, ◌++◌, ltb, if◌then◌else◌}
use nlcpp.Common.Int.{ℤ, pos, negsuc}
use nlcpp.Common.Run.{Run, M, ok, throws, fault, undefined, pure, ◌>>◌, bad_argument, exit_program}
use nlcpp.TestTool.Line.{Word}
use nlcpp.TestTool.Number.{codes}
use nlcpp.TestTool.Args.{Ending, done, exits, null_link}
use nlcpp.Route.TypedCache.{Outcome, value, null_passed, unfinished}

-- `printed` is standard output, and `errors` standard error, as lines in order.
pub record Tool (S : Type 0) : Type 0 where
  pub printed : List Word
  pub errors : List Word
  pub nl : S

module _ {S : Type 0} where
  -- printLine
  unfoldable pub print_line : Word → M (Tool S) (Unit {0})
  print_line line t = ok tt (record t { printed = t.printed ++ (line ∷ []) })

  abbrev pub lift_run {ℓ} : {A : Type ℓ} → Tool S → Run S A → Run (Tool S) A
  lift_run t (ok a s) = ok a (record t { nl = s })
  lift_run t (throws x s) = throws x (record t { nl = s })
  lift_run t fault = fault

  -- A member function of the library.
  abbrev pub on_nl {ℓ} : {A : Type ℓ} → M S A → M (Tool S) A
  on_nl m t = lift_run t (m t.nl)

  -- A member function of an object with the value `l`, and the value after it.
  abbrev pub lift_object {ℓ} : {L : Type 0} {A : Type ℓ} → Tool S → Run L A → Run (Tool S) L
  lift_object t (ok a l) = ok l t
  lift_object t (throws x l) = throws x t
  lift_object t fault = fault

  -- A loop over a cache; one with no end within the fuel counts as undefined.
  abbrev pub on_cache {ℓ} : {A : Type ℓ} → Outcome A → M (Tool S) A
  on_cache (value a) = pure a
  on_cache null_passed = undefined
  on_cache unfinished = undefined

  -- The end of parseLinkArgs or parseAddressArgs, after its calls.
  unfoldable pub finish_args : Ending → M (Tool S) (Unit {0})
  finish_args done t = ok tt t
  finish_args (exits w) t =
      throws (exit_program (pos 1))
        (record t { errors = t.errors ++ ((codes "unexpected link argument: " ++ w) ∷ []) })
  finish_args Ending.throws t = throws bad_argument t
  finish_args null_link t = fault

  -- A loop over a vector.
  unfoldable pub for_each {ℓ} :
      {A : Type ℓ} → (A → M (Tool S) (Unit {0})) → List A → M (Tool S) (Unit {0})
  for_each f [] = pure tt
  for_each f (x ∷ xs) = do f x; for_each f xs

-- `(res ? "true" : "false")`
abbrev pub show_bool : Bool → Word
show_bool b = if b then codes "true" else codes "false"

-- The decimal digits, the last one first to be written.
unfoldable pub digits : (fuel n : ℕ) → Word → Word
digits zero n w = w
digits (suc fuel) n w =
    let rest = digits fuel (n / 10) ((b'0' + n % 10) ∷ w) in
    if ltb n 10 then (b'0' + n) ∷ w else rest

abbrev pub show_nat : ℕ → Word
show_nat n = digits (suc n) n []

-- `<<` of an `int`
abbrev pub show_int : ℤ → Word
show_int (pos n) = show_nat n
show_int (negsuc n) = b'-' ∷ show_nat (suc n)
