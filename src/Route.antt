-- ===== src/Route.antt =====
-- src/route.cpp and include/nlcpp/route.h: the route protocol.
pub mod RouteAddress
pub mod RouteLink
pub mod RouteEntry
pub mod Ownership
pub mod RouteSocket
pub mod TypedCache
pub mod Attributes
pub mod NextHop
pub mod NextHops
pub mod Fields
pub mod Watch
pub mod Caches
