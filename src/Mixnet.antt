-- ===== src/Mixnet.antt =====
-- The node program: the files of mixnet/.
pub mod PacketType
pub mod Packet
pub mod Wire
pub mod Config
pub mod Node
pub mod Network
