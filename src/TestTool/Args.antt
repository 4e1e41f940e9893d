-- ===== src/TestTool/Args.antt =====
-- parseLinkArgs and parseAddressArgs of src/test-tool.cpp: the arguments as calls of setters on the
-- object that they describe, in order. Looking up a device's interface index, where
-- the link cache may have none, and parsing an address, are parameters.
pub mod Settings
use nlcpp.Common.{
  ℕ, ◌≡◌, Bool, true, false, Option, none, some, List, [], ◌∷◌, ◌++◌, ◌==◌, if◌then◌else◌,
}
use nlcpp.Common.Int.{ℤ}
use nlcpp.TestTool.Line.{Word}
use nlcpp.TestTool.Number.{codes, word_eq, stoi}

-- How the function ends: it returns, the program exits over an argument, a callee throws, or a
-- null pointer goes to libnl.
pub data Ending : Type 0 where
  done : Ending
  exits : Word → Ending
  throws : Ending
  null_link : Ending

pub data LinkCall : Type 0 where
  name_is : Word → LinkCall
  ifindex_is : ℤ → LinkCall
  type_is : Word → LinkCall

abbrev pub before : {A : Type 0} → A → List A × Ending → List A × Ending
before c r = (c ∷ r.0, r.1)

abbrev pub with_number : {A : Type 0} → Option ℤ → (ℤ → List A × Ending) → List A × Ending
with_number none f = ([], throws)
with_number (some z) f = f z

-- parseLinkArgs
unfoldable pub parse_link_args : List Word → List LinkCall × Ending
parse_link_args [] = ([], done)
parse_link_args (a ∷ []) = ([], exits a)
parse_link_args (a ∷ v ∷ args) =
    let rest = parse_link_args args in
    if word_eq a (codes "name")
    then before (name_is v) rest
    else if word_eq a (codes "ifindex")
    then with_number (stoi v) (λ z. before (ifindex_is z) rest)
    else if word_eq a (codes "type")
    then before (type_is v) rest
    else ([], exits a)

pub data AddressCall : Type 0 where
  family_inet : AddressCall
  family_inet6 : AddressCall
  ifindex_is : ℤ → AddressCall
  prefixlen_is : ℤ → AddressCall
  local_is : Word → AddressCall

-- `args[i + 1] | std::views::split(',')`; a text with no characters has no parts.
unfoldable pub split_comma : Word → (part : Word) → List Word
split_comma [] part = part ∷ []
split_comma (c ∷ cs) part =
    let next_part = split_comma cs [] in
    let same_part = split_comma cs (part ++ (c ∷ [])) in
    if c == b',' then part ∷ next_part else same_part

unfoldable pub fields_of : Word → List Word
unfolding split_comma
fields_of [] = []
fields_of (c ∷ cs) = split_comma (c ∷ cs) []

-- The setters called, the fields collected, and how it ended.
pub record AddressArgs : Type 0 where
  pub calls : List AddressCall
  pub fields : List Word
  pub ending : Ending

abbrev pub called : List AddressCall → AddressArgs → AddressArgs
called cs r = record r { calls = cs ++ r.calls }

abbrev pub collected : List Word → AddressArgs → AddressArgs
collected fs r = record r { fields = fs ++ r.fields }

abbrev pub stopped : Ending → AddressArgs
stopped e = record { calls = []; fields = []; ending = e }

-- The call with the number, or the end where there is none.
abbrev pub called_with : Option ℤ → Ending → (ℤ → AddressCall) → AddressArgs → AddressArgs
called_with none e f r = stopped e
called_with (some z) e f r = called (f z ∷ []) r

abbrev pub family_calls : Word → List AddressCall
family_calls v =
    if word_eq v (codes "inet")
    then family_inet ∷ []
    else if word_eq v (codes "inet6")
    then family_inet6 ∷ []
    else []

module _ (ifindex_of : Word → Option ℤ) (is_address : Word → Bool) where
  -- `addr.local(Address(args[i]))`, which throws where the address does not parse
  unfoldable pub local_arg : Word → AddressArgs → AddressArgs
  local_arg a r = if is_address a then called (local_is a ∷ []) r else stopped throws

  -- parseAddressArgs
  unfoldable pub parse_address_args : List Word → AddressArgs
  unfolding local_arg fields_of
  parse_address_args [] = stopped done
  parse_address_args (a ∷ []) = local_arg a (stopped done)
  parse_address_args (a ∷ v ∷ args) =
      let one = local_arg a (parse_address_args (v ∷ args)) in
      let rest = parse_address_args args in
      if word_eq a (codes "family")
      then called (family_calls v) rest
      else if word_eq a (codes "dev")
      then called_with (ifindex_of v) null_link AddressCall.ifindex_is rest
      else if word_eq a (codes "prefixlen")
      then called_with (stoi v) throws prefixlen_is rest
      else if word_eq a (codes "fields")
      then collected (fields_of v) rest
      else one
