-- ===== src/Tests/Attributes.antt =====
-- The attributes of a RouteAddress at an object whose addresses are numbers.
use nlcpp.Common.{ℕ, ◌<◌, ◌≡◌, ◌≢◌, ◌↔◌, refl, Option, none, some}
use nlcpp.Common.Int.{ℤ, pos, negsuc}
use nlcpp.Common.Run.{Ends, ok, ◌>>◌}
use nlcpp.Exception.{int_min}
use nlcpp.Route.Fields.{AddressField, PlainField}
use nlcpp.Route.Attributes.{
  RtnlAddr, to_uint32, valid_lifetime, set_valid_lifetime, preferred_lifetime,
  set_preferred_lifetime,
}
use nlcpp.Route.Attributes.Time.{InRange, lifetimes_bounds}
use nlcpp.Route.Fields.Addresses.{Stored, NotStored}
use nlcpp.Route.Attributes.Setting.{peer_field, field_of, failure, set_field, set_field-Stored}
use nlcpp.Tests.Errors.{errno, errno-IsErrno}

-- The state is one number: an address, a lifetime.
abbrev field : AddressField ℕ ℕ
field = record {
  get = λ s. some s;
  set = λ o s. elim o [ none ↦ (negsuc 4, s) | some p ↦ (pos 0, p) ];
}

abbrev number : PlainField ℕ ℕ
number = record { get = λ s. s; set = λ v s. v }

abbrev whole : PlainField ℕ ℤ
whole = record { get = λ s. pos s; set = λ v s. s }

abbrev rtnl : RtnlAddr ℕ ℕ
rtnl = record {
  addr = record { clone = λ a s. (some a, s); put = λ a s. s };
  local_of = field;
  peer_of = field;
  broadcast_of = field;
  multicast_of = field;
  anycast_of = field;
  get_label = λ s. none;
  set_label = λ v s. s;
  ifindex_of = whole;
  family_of = whole;
  prefixlen_of = number;
  scope_of = number;
  get_flags = λ s. s;
  set_flags_in = λ v s. s;
  unset_flags_in = λ v s. s;
  valid_lifetime_of = number;
  preferred_lifetime_of = number;
  get_create_time = λ s. s;
  get_last_update_time = λ s. s;
}

field_codes : (o : Option ℕ) (s : ℕ) → ((field_of rtnl peer_field).set o s).0 ≢ int_min
unfolding field_of
field_codes none s = λ h. cc
field_codes (some p) s = λ h. cc

set_field-Stored_example :
    Ends
      (λ _ t. Stored rtnl.addr (field_of rtnl peer_field) (rtnl.addr.clone 5 7) t)
      (NotStored errno rtnl.addr
        (field_of rtnl peer_field)
        (failure peer_field)
        (rtnl.addr.clone 5 7))
      (set_field errno rtnl peer_field 5 7)
set_field-Stored_example = set_field-Stored errno rtnl errno-IsErrno peer_field 5 7 field_codes

-- A bit more than 2^32 seconds.
lifetimes_bounds_example :
    (r : Option ℕ) × ((set_valid_lifetime errno rtnl (pos 0x1_0000_0005)
          >> valid_lifetime errno rtnl)
        7
      ≡ ok r (to_uint32 (pos 0x1_0000_0005)))
    × ((set_preferred_lifetime errno rtnl (pos 0x1_0000_0005) >> preferred_lifetime errno rtnl) 7
        ≡ ok r (to_uint32 (pos 0x1_0000_0005)))
    × ((n : ℕ) → r ≡ some n → n < 0xffff_ffff)
    × (((n : ℕ) × (pos 0x1_0000_0005 ≡ pos n) × (r ≡ some n)) ↔ InRange (pos 0x1_0000_0005))
lifetimes_bounds_example =
    lifetimes_bounds errno rtnl (pos 0x1_0000_0005) 7 (λ v s. refl) (λ v s. refl)
