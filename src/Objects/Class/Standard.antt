-- ===== src/Objects/Class/Standard.antt =====
-- The common move operations and destruction meet the interface.
use nlcpp.Objects.Defs.{Libnl, IsAllocator}
use nlcpp.Objects.Handle.{move_object, move_assign_object, destroy_object}
use nlcpp.Objects.Handle.Life.{
  move_object-ok, move_assign_object_self, move_assign_object-ok, destroy_object-ok,
}
use nlcpp.Objects.Class.{IsMoving}

pub object-IsMoving :
    {l : Libnl} → IsAllocator l → IsMoving l l.put move_object move_assign_object destroy_object
object-IsMoving c = record {
  move_law = move_object-ok c;
  self_law = λ w this. move_assign_object_self c (λ q. 0) w this;
  assign_law = move_assign_object-ok c;
  destroy_law = destroy_object-ok c;
}
