-- ===== src/Mixnet/Node/UserPort.antt =====
-- mixnet/node.c, run_node: an STP packet on a port that is not a neighbour's. The user's port is the one
-- behind the neighbours', and task_send_packet of framework/fragment.cpp queues packets of any type
-- there.
use fall23_p.Mixnet.Packet.{Packet}
use fall23_p.Mixnet.PacketType
use fall23_p.Mixnet.Node.{Node}
