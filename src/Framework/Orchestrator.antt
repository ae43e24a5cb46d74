-- ===== src/Framework/Orchestrator.antt =====
-- framework/orchestrator.cpp: the process that drives the fragments through a test case.
pub mod Machine
pub mod Exchange
pub mod Headers
pub mod Agreement
pub mod Broadcast
pub mod Commands
pub mod Packets
pub mod Responses
pub mod Fragments
pub mod Phases
pub mod Setup
pub mod Handshake
pub mod Pcap
pub mod Reset
