-- ===== src/TestTool/Args/Settings.antt =====
-- Which arguments the two functions read, and as what.
use nlcpp.Common.{◌≡◌, ◌⊎◌, inl, inr, refl, Bool, true, false, Option, some, List, [], ◌∷◌, ◌++◌}
use mathlib.Core.List.{append_assoc, append-nil}
use nlcpp.Common.Int.{ℤ}
use nlcpp.TestTool.Line.{Word}
use nlcpp.TestTool.Number.{codes, word_eq, stoi}
use nlcpp.TestTool.Args.{
  done, exits, LinkCall, name_is, type_is, parse_link_args, AddressCall, prefixlen_is, local_is,
  fields_of, AddressArgs, local_arg, parse_address_args, family_calls,
}

pub data LinkSetting : Type 0 where
  link_name link_type : Word → LinkSetting
  link_ifindex : Word → ℤ → LinkSetting

unfoldable pub link_words : List LinkSetting → List Word
link_words [] = []
link_words (link_name v ∷ ss) = codes "name" ∷ v ∷ link_words ss
link_words (link_type v ∷ ss) = codes "type" ∷ v ∷ link_words ss
link_words (link_ifindex v z ∷ ss) = codes "ifindex" ∷ v ∷ link_words ss

unfoldable pub link_calls : List LinkSetting → List LinkCall
link_calls [] = []
link_calls (link_name v ∷ ss) = name_is v ∷ link_calls ss
link_calls (link_type v ∷ ss) = type_is v ∷ link_calls ss
link_calls (link_ifindex v z ∷ ss) = LinkCall.ifindex_is z ∷ link_calls ss

-- Each interface index is the number that its text stands for.
abbrev pub AreReadable : List LinkSetting → Type 0
AreReadable [] = Unit {0}
AreReadable (link_name v ∷ ss) = AreReadable ss
AreReadable (link_type v ∷ ss) = AreReadable ss
AreReadable (link_ifindex v z ∷ ss) = (stoi v ≡ some z) × AreReadable ss

parse_link_args-prefix :
    (ss : List LinkSetting) (rest : List Word)
    → AreReadable ss
    → parse_link_args (link_words ss ++ rest)
      ≡ (link_calls ss ++ (parse_link_args rest).0, (parse_link_args rest).1)
unfolding parse_link_args link_words link_calls
parse_link_args-prefix [] rest h = refl
parse_link_args-prefix (link_name v ∷ ss) rest h = rw (parse_link_args-prefix ss rest h)
parse_link_args-prefix (link_type v ∷ ss) rest h = rw (parse_link_args-prefix ss rest h)
parse_link_args-prefix (link_ifindex v z ∷ ss) rest h = rw (h.0, parse_link_args-prefix ss rest h.1)

pub parse_link_args-all :
    (ss : List LinkSetting)
    → AreReadable ss
    → parse_link_args (link_words ss) ≡ (link_calls ss, done)
unfolding parse_link_args link_words link_calls
parse_link_args-all [] h = refl
parse_link_args-all (link_name v ∷ ss) h = rw (parse_link_args-all ss h)
parse_link_args-all (link_type v ∷ ss) h = rw (parse_link_args-all ss h)
parse_link_args-all (link_ifindex v z ∷ ss) h = rw (h.0, parse_link_args-all ss h.1)

-- A word that stands for no setting, or has no value behind it.
abbrev pub IsUnexpected : Word → List Word → Type 0
IsUnexpected a rest =
    (rest ≡ [])
    ⊎ ((word_eq a (codes "name") ≡ false)
        × (word_eq a (codes "ifindex") ≡ false)
        × (word_eq a (codes "type") ≡ false))

unexpected :
    (a : Word) (rest : List Word) → IsUnexpected a rest → parse_link_args (a ∷ rest) ≡ ([], exits a)
unfolding parse_link_args
unexpected a [] h = refl
unexpected a (v ∷ rest) (inl h) = cc
unexpected a (v ∷ rest) (inr h) = rw (h.0, h.1, h.2)

-- `parseLinkArgs` reads settings written as a keyword and a value, in any number and order, as calls
-- of their setters in that order. With nothing behind them it returns; at a word that is no keyword,
-- or is the last, it makes the program exit over that word after these calls.
pub parse_link_args-settings :
    (ss : List LinkSetting) (a : Word) (rest : List Word)
    → AreReadable ss
    → IsUnexpected a rest
    → (parse_link_args (link_words ss) ≡ (link_calls ss, done))
      × (parse_link_args (link_words ss ++ (a ∷ rest)) ≡ (link_calls ss, exits a))
parse_link_args-settings ss a rest h u = (
  parse_link_args-all ss h,
  rw (parse_link_args-prefix ss (a ∷ rest) h, unexpected a rest u, append-nil),
)

-- How an address setting is written.
pub data AddressSetting : Type 0 where
  set_family set_fields set_local : Word → AddressSetting
  set_dev set_prefixlen : Word → ℤ → AddressSetting

unfoldable pub address_words : List AddressSetting → List Word
address_words [] = []
address_words (set_family v ∷ ss) = codes "family" ∷ v ∷ address_words ss
address_words (set_fields v ∷ ss) = codes "fields" ∷ v ∷ address_words ss
address_words (set_local v ∷ ss) = v ∷ address_words ss
address_words (set_dev v z ∷ ss) = codes "dev" ∷ v ∷ address_words ss
address_words (set_prefixlen v z ∷ ss) = codes "prefixlen" ∷ v ∷ address_words ss

unfoldable pub address_calls : List AddressSetting → List AddressCall
address_calls [] = []
address_calls (set_family v ∷ ss) = family_calls v ++ address_calls ss
address_calls (set_fields v ∷ ss) = address_calls ss
address_calls (set_local v ∷ ss) = local_is v ∷ address_calls ss
address_calls (set_dev v z ∷ ss) = AddressCall.ifindex_is z ∷ address_calls ss
address_calls (set_prefixlen v z ∷ ss) = prefixlen_is z ∷ address_calls ss

unfoldable pub address_fields : List AddressSetting → List Word
address_fields [] = []
address_fields (set_family v ∷ ss) = address_fields ss
address_fields (set_fields v ∷ ss) = fields_of v ++ address_fields ss
address_fields (set_local v ∷ ss) = address_fields ss
address_fields (set_dev v z ∷ ss) = address_fields ss
address_fields (set_prefixlen v z ∷ ss) = address_fields ss

-- Not one of the four keywords.
abbrev pub IsPlain : Word → Type 0
IsPlain a =
    (word_eq a (codes "family") ≡ false)
    × (word_eq a (codes "dev") ≡ false)
    × (word_eq a (codes "prefixlen") ≡ false)
    × (word_eq a (codes "fields") ≡ false)

module _ (ifindex_of : Word → Option ℤ) (is_address : Word → Bool) where
  -- Devices are known, numbers are readable, and addresses parse and are no keyword.
  abbrev pub AreKnown : List AddressSetting → Type 0
  AreKnown [] = Unit {0}
  AreKnown (set_family v ∷ ss) = AreKnown ss
  AreKnown (set_fields v ∷ ss) = AreKnown ss
  AreKnown (set_local v ∷ ss) = IsPlain v × (is_address v ≡ true) × AreKnown ss
  AreKnown (set_dev v z ∷ ss) = (ifindex_of v ≡ some z) × AreKnown ss
  AreKnown (set_prefixlen v z ∷ ss) = (stoi v ≡ some z) × AreKnown ss

  plain_arg :
      (a : Word) (rest : List Word)
      → IsPlain a
      → parse_address_args ifindex_of is_address (a ∷ rest)
        ≡ local_arg ifindex_of is_address a (parse_address_args ifindex_of is_address rest)
  unfolding parse_address_args
  plain_arg a [] h = refl
  plain_arg a (v ∷ rest) h = rw (h.0, h.1, h.2, h.3)

  abbrev pub behind : List AddressSetting → AddressArgs → AddressArgs
  behind ss r = record r {
    calls = address_calls ss ++ r.calls;
    fields = address_fields ss ++ r.fields;
  }

  -- `parseAddressArgs` reads settings written as a keyword and a value, or as a bare address, in any
  -- number and order, where devices are known, numbers are readable and addresses parse: as calls of
  -- their setters in that order, with the parts of each `fields` value collected in order, and goes on
  -- with what follows. A family that is neither `inet` nor `inet6` sets nothing.
  pub parse_address_args-settings :
      (ss : List AddressSetting) (rest : List Word)
      → AreKnown ss
      → parse_address_args ifindex_of is_address (address_words ss ++ rest)
        ≡ behind ss (parse_address_args ifindex_of is_address rest)
  unfolding parse_address_args address_words address_calls address_fields
  parse_address_args-settings [] rest h = refl
  parse_address_args-settings (set_family v ∷ ss) rest h =
      rw (parse_address_args-settings ss rest h, append_assoc)
  parse_address_args-settings (set_fields v ∷ ss) rest h =
      rw (parse_address_args-settings ss rest h, append_assoc)
  parse_address_args-settings (set_local v ∷ ss) rest h = rw (
    plain_arg v (address_words ss ++ rest) h.0,
    parse_address_args-settings ss rest h.2,
    local_arg,
    h.1,
  )
  parse_address_args-settings (set_dev v z ∷ ss) rest h =
      rw (h.0, parse_address_args-settings ss rest h.1)
  parse_address_args-settings (set_prefixlen v z ∷ ss) rest h =
      rw (h.0, parse_address_args-settings ss rest h.1)
