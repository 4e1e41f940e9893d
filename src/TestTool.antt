-- ===== src/TestTool.antt =====
-- src/test-tool.cpp: the test tool.
pub mod Line
pub mod Number
pub mod Args
pub mod State
pub mod Links
pub mod Addresses
pub mod Watches
pub mod Program
pub mod Main
