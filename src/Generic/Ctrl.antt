-- ===== src/Generic/Ctrl.antt =====
-- src/ctrl.cpp and include/nlcpp/ctrl.h: the families that the nlctrl family tells of. The attribute
-- numbers of linux/genetlink.h are parameters.
pub mod Groups
use Prim.Native.String.{String}
use nlcpp.Common.{ℕ, Bool, true, false, Option, none, some, List, [], ◌∷◌, ◌++◌}
use nlcpp.Common.Int.{ℤ, pos}
use nlcpp.Netlink.Socket.{Event, Socket, Callback, send_message_sync_with}
use nlcpp.Generic.Attributes.{NlAttr, as_int}

pub record MulticastGroup : Type 0 where
  pub name : String
  pub id : ℤ

pub record GenericFamily : Type 0 where
  pub name : String
  pub id : ℤ
  pub multicast_groups : List MulticastGroup

-- linux/genetlink.h
pub record CtrlAttr : Type 0 where
  pub family_name : ℕ
  pub family_id : ℕ
  pub mcast_groups : ℕ
  pub mcast_grp_name : ℕ
  pub mcast_grp_id : ℕ

-- `GenericFamily {}`
abbrev pub no_family : GenericFamily
no_family = record { name = ""; id = pos 0; multicast_groups = [] }

module _ {Attrs Attr : Type 0} (a : NlAttr Attrs Attr) (k : CtrlAttr) where
  set_name : Option Attr → GenericFamily → GenericFamily
  set_name none f = f
  set_name (some x) f = record f { name = a.get_string x }

  set_id : Option Attr → GenericFamily → GenericFamily
  set_id none f = f
  set_id (some x) f = record f { id = as_int (a.get_u32 x) }

  -- The body of the loop, behind its `continue`.
  add_group : Option Attr → Option Attr → GenericFamily → GenericFamily
  add_group none i f = f
  add_group (some n) none f = f
  add_group (some n) (some i) f = record f {
    multicast_groups =
        f.multicast_groups ++ (record { name = a.get_string n; id = as_int (a.get_u32 i) } ∷ []);
  }

  -- nla_for_each_nested(mcgrp, ...)
  unfoldable pub add_groups : List Attr → GenericFamily → GenericFamily
  unfolding add_group
  add_groups [] f = f
  add_groups (mcgrp ∷ more) f =
      let tb = a.table (a.content mcgrp) in
      add_groups more (add_group (tb k.mcast_grp_name) (tb k.mcast_grp_id) f)

  add_nested : Option Attr → GenericFamily → GenericFamily
  unfolding add_groups
  add_nested none f = f
  add_nested (some x) f = add_groups (a.nested x) f

  -- Ctrl::parseGenericFamily, on the family that it fills
  unfoldable pub parse_generic_family : Attrs → GenericFamily → GenericFamily
  unfolding set_name set_id add_nested
  parse_generic_family message result =
      let tb = a.table message in
      add_nested (tb k.mcast_groups) (set_id (tb k.family_id) (set_name (tb k.family_name) result))

  -- Ctrl::getFamily: what the answers leave in `result`; `none` where the call is still waiting. The
  -- client's state has `result` in front.
  unfoldable pub get_family :
      {E : Type 0}
      → (eproto : ℕ) → List (List (Event Attrs))
      → Socket Attrs (Option GenericFamily × E)
      → Option (Socket Attrs (Option GenericFamily × E))
  unfolding send_message_sync_with
  get_family eproto batches s =
      send_message_sync_with eproto
        (some (λ reply c. (some (parse_generic_family reply no_family), c.1))) batches
        (record s { client = (none, s.client.1) })

  -- Ctrl::getFamilies, likewise
  unfoldable pub get_families :
      {E : Type 0}
      → (eproto : ℕ) → List (List (Event Attrs))
      → Socket Attrs (List GenericFamily × E)
      → Option (Socket Attrs (List GenericFamily × E))
  unfolding send_message_sync_with
  get_families eproto batches s =
      send_message_sync_with eproto
        (some (λ reply c. (c.0 ++ (parse_generic_family reply no_family ∷ []), c.1))) batches
        (record s { client = ([], s.client.1) })
