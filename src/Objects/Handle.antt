-- ===== src/Objects/Handle.antt =====
-- The life of an object that shares a reference-counted object of libnl: the operations that several
-- wrapper classes have in common, in the order of their C++ statements.
pub mod Life
pub mod Replace
use Prim.Native.String.{String}
use nlcpp.Common.{ℕ, Bool, Option, none, some, ◌==◌, if◌then◌else◌}
use nlcpp.Common.Run.{M, runtime_error, ◌>>=◌, ◌>>◌, pure, throw, when}
use nlcpp.Common.{not}
use nlcpp.Objects.Defs.{
  Ptr, Libnl, World, is_null, member, set_member, construct, end_lifetime, call_alloc, call_clone,
  call_get, call_put,
}

module _ {l : Libnl} where
  -- Allocate, or throw.
  unfoldable pub alloc_object : String → M (World l) ℕ
  alloc_object msg = do p ← call_alloc; if is_null p then throw (runtime_error msg) else construct p

  -- Store a clone of the pointer's object, or throw.
  unfoldable pub clone_object : String → Ptr → M (World l) ℕ
  clone_object msg p = do
    q ← call_clone p
    if is_null q then throw (runtime_error msg) else construct q

  -- Store the pointer with a reference of its own, if it is not null.
  unfoldable pub share_object : Ptr → M (World l) ℕ
  share_object p = do when (not (is_null p)) (call_get p); construct p

  unfoldable pub move_object : ℕ → M (World l) ℕ
  move_object other = do p ← member other; this ← construct p; set_member other none; pure this

  unfoldable pub move_assign_object : ℕ → ℕ → M (World l) ℕ
  move_assign_object this other = if this == other then pure this else do
    p ← member this
    call_put p
    q ← member other
    set_member this q
    set_member other none
    pure this

  unfoldable pub destroy_object : ℕ → M (World l) (Unit {0})
  destroy_object this = do p ← member this; call_put p; end_lifetime this
