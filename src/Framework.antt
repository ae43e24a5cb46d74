-- ===== src/Framework.antt =====
-- The test framework: the files of framework/.
pub mod ErrorCode
pub mod Buffer
pub mod Message
pub mod Networking
pub mod Fragment
pub mod Orchestrator
pub mod Arrays
