-- ===== src/Message/Lifetime.antt =====
-- Objects of Message keep the reference counts of their `nl_msg` right.
use nlcpp.Common.{ℕ, ◌<◌, ◌≡◌, refl, some, [], ◌∷◌, ◌++◌}
use nlcpp.Common.Run.{Ends, returns, runtime_error}
use nlcpp.Objects.Defs.{Libnl, IsCounted, World}
use nlcpp.Objects.Rules.{Owned, call_get-ok, call_get-Owned, construct-Owned}
use nlcpp.Objects.Handle.{alloc_object, move_object, move_assign_object, destroy_object}
use nlcpp.Objects.Handle.Life.{Constructed, Allocated, Refused, alloc_object-ok}
use nlcpp.Objects.Class.{IsMoving}
use nlcpp.Objects.Class.Standard.{object-IsMoving}
use nlcpp.Message.{message_make, message_share, message_move, message_move_assign, message_destroy}

module _ {l : Libnl} (c : IsCounted l) (ext : ℕ → ℕ) (w : World l) where
  -- A new message owns the only reference to a fresh `nl_msg`, or the constructor throws and changes
  -- nothing.
  message_make-Allocated :
      Owned ext w
      → Ends
          (Allocated ext w)
          (λ e v. (e ≡ runtime_error "Failed to allocate netlink message") × Refused ext w v)
          (message_make w)
  unfolding message_make alloc_object
  message_make-Allocated o =
      alloc_object-ok c.allocator ext w "Failed to allocate netlink message" o

  -- A message made from the pointer of an allocated `nl_msg` has a reference of its own.
  message_share-Constructed :
      (p : ℕ)
      → 0 < l.refs w.store p
      → Owned ext w
      → Ends (Constructed ext w (some p)) (λ _ _. ⊥) (message_share (some p) w)
  unfolding message_share
  message_share-Constructed p h o =
      rw (call_get-ok (record w { objects = w.objects ++ (some (some p) ∷ []) }) p h) (
        returns (
          refl,
          refl,
          construct-Owned c.allocator ext (record w { store = l.get p w.store }) (some p)
              (call_get-Owned c ext w p h o),
        ))

-- Moving an object of `Message`, assigning to one by a move, also to itself, and destroying one are
-- defined on live objects, and each reference stays owned by one object or by the outside.
pub message-IsMoving :
    (l : Libnl) → IsCounted l → IsMoving l l.put message_move message_move_assign message_destroy
unfolding message_move message_move_assign message_destroy move_object move_assign_object
    destroy_object
message-IsMoving l c = object-IsMoving c.allocator
