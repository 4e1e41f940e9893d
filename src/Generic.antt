-- ===== src/Generic.antt =====
-- src/generic.cpp, src/ctrl.cpp and src/nl80211.cpp: generic netlink and two of its families.
pub mod Attributes
pub mod Ctrl
pub mod Nl80211
pub mod Replies
pub mod Messages
pub mod Header
pub mod Requests
