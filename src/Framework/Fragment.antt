-- ===== src/Framework/Fragment.antt =====
-- framework/fragment.cpp: the process that runs a node.
pub mod NodeContext
pub mod Sending
pub mod Receiving
pub mod Delivery
pub mod Tasks
pub mod Header
pub mod Machine
pub mod Setup
pub mod Handshake
pub mod Testcase
pub mod Capture
