-- ===== src/Route/RouteLink/Attributes.antt =====
-- The attributes of a RouteLink of src/route.cpp, on the state `S` of its `rtnl_link`. The functions of
-- libnl, and the type of a text, are parameters.
use nlcpp.Common.{ℕ, Option}
use nlcpp.Common.Int.{ℤ}
use nlcpp.Common.Run.{M, ok}
use nlcpp.Route.Fields.{PlainField, change}

pub record RtnlLink (S Text : Type 0) : Type 0 where
  pub get_name : S → Option Text
  pub set_name_in : Text → S → S
  pub get_flags : S → ℕ
  pub set_flags_in : ℕ → S → S
  pub unset_flags_in : ℕ → S → S
  pub ifindex_of : PlainField S ℤ
  pub operstate_of : PlainField S ℕ
  pub get_type : S → Option Text
  pub set_type_in : Text → S → S

module _ {S Text : Type 0} (rt : RtnlLink S Text) where
  -- name
  unfoldable pub link_name : M S (Option Text)
  link_name s = ok (rt.get_name s) s

  unfoldable pub set_link_name : Text → M S (Unit {0})
  unfolding change
  set_link_name value = change (rt.set_name_in value)

  -- type
  unfoldable pub link_type : M S (Option Text)
  link_type s = ok (rt.get_type s) s

  unfoldable pub set_link_type : Text → M S (Unit {0})
  unfolding change
  set_link_type value = change (rt.set_type_in value)

  unfoldable pub link_flags : M S ℕ
  link_flags s = ok (rt.get_flags s) s

  unfoldable pub set_link_flags : ℕ → M S (Unit {0})
  unfolding change
  set_link_flags value = change (rt.set_flags_in value)

  unfoldable pub unset_link_flags : ℕ → M S (Unit {0})
  unfolding change
  unset_link_flags value = change (rt.unset_flags_in value)

  unfoldable pub link_ifindex : M S ℤ
  link_ifindex s = ok (rt.ifindex_of.get s) s

  unfoldable pub set_link_ifindex : ℤ → M S (Unit {0})
  unfolding change
  set_link_ifindex value = change (rt.ifindex_of.set value)

  unfoldable pub operstate : M S ℕ
  operstate s = ok (rt.operstate_of.get s) s

  unfoldable pub set_operstate : ℕ → M S (Unit {0})
  unfolding change
  set_operstate value = change (rt.operstate_of.set value)
