-- ===== src/Netlink.antt =====
-- src/netlink.cpp and include/nlcpp/netlink.h: addresses, caches and sockets.
pub mod Address
pub mod Cache
pub mod CacheManager
pub mod Socket
