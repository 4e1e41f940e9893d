-- ===== src/Tests/Families.antt =====
-- Families and interfaces at a few replies.
use nlcpp.Common.{ℕ, ◌≡◌, ◌==◌, if◌then◌else◌, Option, none, some, List, [], ◌∷◌}
use nlcpp.Common.Int.{pos}
use nlcpp.Netlink.Socket.{Event, valid, finish, Socket}
use nlcpp.Generic.Attributes.{NlAttr, as_int}
use nlcpp.Generic.Ctrl.{GenericFamily, CtrlAttr, no_family, parse_generic_family}
use nlcpp.Generic.Ctrl.Groups.{or_default, groups, parse_generic_family-groups}
use nlcpp.Generic.Nl80211.{InterfaceConfiguration, Nl80211Attr}

-- Attributes are a list of types and values; a value nests attributes of the two types before it.
abbrev find : List (ℕ × ℕ) → ℕ → Option ℕ
find [] t = none
find (x ∷ xs) t = if x.0 == t then some x.1 else find xs t

abbrev pub attr : NlAttr (List (ℕ × ℕ)) ℕ
attr = record {
  table = find;
  get_string = λ n. "text";
  get_u32 = λ n. n;
  get_u8 = λ n. n;
  nested = λ n. n ∷ n ∷ [];
  content = λ n. (1, n) ∷ (2, n) ∷ [];
  bytes = λ n. n ∷ n ∷ n ∷ n ∷ n ∷ n ∷ [];
}

abbrev pub ctrl_attr : CtrlAttr
ctrl_attr = record {
  family_name = 2;
  family_id = 1;
  mcast_groups = 7;
  mcast_grp_name = 1;
  mcast_grp_id = 2;
}

abbrev pub nl80211_attr : Nl80211Attr
nl80211_attr = record {
  attr_ifindex = 3;
  attr_wiphy = 1;
  attr_iftype = 5;
  attr_mac = 6;
  attr_4addr = 83;
  eth_alen = 6;
}

abbrev reply : List (ℕ × ℕ)
reply = (1, 16) ∷ (2, 0) ∷ (7, 4) ∷ []

abbrev pub before : List (List (Event (List (ℕ × ℕ))))
before = (valid reply ∷ []) ∷ []

abbrev pub batch : List (Event (List (ℕ × ℕ)))
batch = valid [] ∷ finish ∷ []

abbrev families : Socket (List (ℕ × ℕ)) (List GenericFamily × ℕ)
families = record { call_status = pos 0; valid_callback = none; client = ([], 0) }

abbrev pub family : Socket (List (ℕ × ℕ)) (Option GenericFamily × ℕ)
family = record { call_status = pos 0; valid_callback = none; client = (none, 0) }

abbrev pub interfaces : Socket (List (ℕ × ℕ)) (List InterfaceConfiguration × ℕ)
interfaces = record { call_status = pos 0; valid_callback = none; client = ([], 0) }

abbrev interface : Socket (List (ℕ × ℕ)) (Option InterfaceConfiguration × ℕ)
interface = record { call_status = pos 0; valid_callback = none; client = (none, 0) }

parse_generic_family-groups_example : parse_generic_family attr ctrl_attr reply no_family ≡ record {
  name = or_default attr ctrl_attr "" attr.get_string (attr.table reply 2);
  id = or_default attr ctrl_attr (pos 0) (λ x. as_int (attr.get_u32 x)) (attr.table reply 1);
  multicast_groups =
      or_default attr ctrl_attr []
        (λ x. groups attr ctrl_attr (attr.nested x))
        (attr.table reply 7);
}
parse_generic_family-groups_example = parse_generic_family-groups attr ctrl_attr reply
