-- ===== src/Route/Ownership.antt =====
-- Histories of the shared wrapper classes of the route protocol.
use nlcpp.Common.{ℕ, ◌≡◌, some, List}
use nlcpp.Objects.Defs.{Libnl, IsCounted, World}
use nlcpp.Objects.Rules.{Owned}
use nlcpp.Objects.Class.{Class, IsClass}
use nlcpp.Objects.Class.History.{
  Call, step, Allowed, handed, step-Owned, History, AllEnded, no_leak,
}
use nlcpp.Route.RouteAddress.Lifetime.{route_address_class, route_address_class-IsClass}
use nlcpp.Route.RouteLink.Lifetime.{route_link_class, route_link_class-IsClass}
use nlcpp.Route.RouteEntry.Lifetime.{route_class, route_class-IsClass}

pub data Kind : Type 0 where
  address_kind link_kind route_kind : Kind

unfoldable pub class_of : (l : Libnl) → Kind → Class l
class_of l address_kind = route_address_class l
class_of l link_kind = route_link_class l
class_of l route_kind = route_class l

class_of-IsClass : (l : Libnl) → IsCounted l → (kind : Kind) → IsClass l (class_of l kind)
unfolding class_of
class_of-IsClass l c address_kind = route_address_class-IsClass l c
class_of-IsClass l c link_kind = route_link_class-IsClass l c
class_of-IsClass l c route_kind = route_class-IsClass l c

module _ (l : Libnl) (c : IsCounted l) (kind : Kind) where
  -- Where the references to libnl's objects are accounted for, every allowed call of a special
  -- member function of `RouteAddress`, `RouteLink` or `Route` is defined, and the references are
  -- accounted for after it, whether it returns or throws.
  pub call_defined :
      (ext : ℕ → ℕ) (call : Call) (w : World l)
      → Allowed ext call w
      → Owned ext w
      → (v : World l) × (step (class_of l kind) call w ≡ some v) × Owned (handed ext call) v
  call_defined = step-Owned (class_of l kind) (class_of-IsClass l c kind)

  -- Where the references to libnl's objects are accounted for, and a history of allowed calls of the
  -- special member functions of `RouteAddress`, `RouteLink` or `Route` has ended the life of every
  -- wrapper object, the reference count of each object of libnl is what the outside owns: no leak,
  -- and nothing freed too early.
  pub History-no_leak :
      {ext final : ℕ → ℕ} {w u : World l} {cs : List Call}
      → History (class_of l kind) ext w cs final u
      → Owned ext w
      → AllEnded u.objects
      → (q : ℕ) → l.refs u.store q ≡ final q
  History-no_leak = no_leak (class_of-IsClass l c kind)
