-- ===== src/Generic/Ctrl/Groups.antt =====
-- What a family message is parsed to.
use mathlib.Core.List.{append_assoc, append-nil}
use nlcpp.Common.{◌≡◌, refl, ap, ◌∙◌, Option, none, some, List, [], ◌∷◌, ◌++◌}
use nlcpp.Common.Int.{pos}
use nlcpp.Generic.Attributes.{NlAttr, as_int}
use nlcpp.Generic.Ctrl.{
  MulticastGroup, GenericFamily, CtrlAttr, no_family, set_name, set_id, add_group, add_groups,
  add_nested, parse_generic_family,
}

module _ {Attrs Attr : Type 0} (a : NlAttr Attrs Attr) (k : CtrlAttr) where
  -- The group that an attribute stands for: none without a name or without an id.
  unfoldable pub group_of : Option Attr → Option Attr → List MulticastGroup
  group_of none none = []
  group_of none (some i) = []
  group_of (some n) none = []
  group_of (some n) (some i) = record { name = a.get_string n; id = as_int (a.get_u32 i) } ∷ []

  unfoldable pub groups : List Attr → List MulticastGroup
  groups [] = []
  groups (x ∷ xs) =
      group_of (a.table (a.content x) k.mcast_grp_name) (a.table (a.content x) k.mcast_grp_id)
      ++ groups xs

  -- The optional fields, with the default where the attribute is missing.
  abbrev pub or_default : {A B : Type 0} → B → (A → B) → Option A → B
  or_default d f none = d
  or_default d f (some x) = f x

  add_group-group_of :
      (n i : Option Attr) (f : GenericFamily)
      → add_group a k n i f ≡ record f { multicast_groups = f.multicast_groups ++ group_of n i }
  unfolding add_group group_of
  add_group-group_of none none f = rw append-nil
  add_group-group_of none (some i) f = rw append-nil
  add_group-group_of (some n) none f = rw append-nil
  add_group-group_of (some n) (some i) f = refl

  add_groups-groups :
      (xs : List Attr) (f : GenericFamily)
      → add_groups a k xs f ≡ record f { multicast_groups = f.multicast_groups ++ groups xs }
  unfolding add_groups groups
  add_groups-groups [] f = rw append-nil
  add_groups-groups (x ∷ xs) f =
      let n = a.table (a.content x) k.mcast_grp_name in
      let i = a.table (a.content x) k.mcast_grp_id in
      ap (add_groups a k xs) (add_group-group_of n i f)
      ∙ add_groups-groups xs (record f { multicast_groups = f.multicast_groups ++ group_of n i })
      ∙ ap (λ gs. record f { multicast_groups = gs })
          (append_assoc f.multicast_groups (group_of n i) (groups xs))

  -- What the three attributes of a family give.
  abbrev pub family : Option Attr → Option Attr → Option Attr → GenericFamily
  family name id nest = record {
    name = or_default "" a.get_string name;
    id = or_default (pos 0) (λ x. as_int (a.get_u32 x)) id;
    multicast_groups = or_default [] (λ x. groups (a.nested x)) nest;
  }

  fill-family :
      (name id nest : Option Attr)
      → add_nested a k nest (set_id a k id (set_name a k name no_family)) ≡ family name id nest
  unfolding add_nested set_id set_name groups
  fill-family none none none = refl
  fill-family none none (some x) = add_groups-groups (a.nested x) _
  fill-family none (some i) none = refl
  fill-family none (some i) (some x) = add_groups-groups (a.nested x) _
  fill-family (some n) none none = refl
  fill-family (some n) none (some x) = add_groups-groups (a.nested x) _
  fill-family (some n) (some i) none = refl
  fill-family (some n) (some i) (some x) = add_groups-groups (a.nested x) _

  -- A family message is parsed to the name and the id of its attributes, or empty and 0 where they
  -- are missing, and to the multicast groups that have both a name and an id, in their order.
  pub parse_generic_family-groups :
      (message : Attrs)
      → parse_generic_family a k message no_family ≡ record {
        name = or_default "" a.get_string (a.table message k.family_name);
        id = or_default (pos 0) (λ x. as_int (a.get_u32 x)) (a.table message k.family_id);
        multicast_groups =
            or_default [] (λ x. groups (a.nested x)) (a.table message k.mcast_groups);
      }
  unfolding parse_generic_family
  parse_generic_family-groups message =
      fill-family (a.table message k.family_name) (a.table message k.family_id)
        (a.table message k.mcast_groups)
