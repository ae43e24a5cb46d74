-- ===== src/Lib.antt =====
-- Mixnet: a node program that builds a spanning tree and floods packets over it, and the framework
-- that runs one such node per process (a fragment) under an orchestrator.
--
-- The parts, and the files that model them:
--   * mixnet/packet.h, mixnet/packet_init.c, mixnet/address.h: Mixnet/PacketType (the types),
--     Mixnet/Packet (sizes, and the two packets that a node builds), Mixnet/Wire (the bytes of a
--     payload). mixnet/config.h: Mixnet/Config.
--   * mixnet/node.c: Mixnet/Node has struct node, send_STP, send_FLOOD and receive_STP, split at its
--     branches into adopt, announce, set_port and first_contact; Mixnet/Node/Loop has run_node. One
--     round of its loop is a function of the packet that mixnet_recv hands over and of the readings of
--     the clock, in the order of the calls; the packets sent are a list of port and packet. The
--     theorems are in Mixnet/Node/Priority (the route), Blocking (the ports), Flooding (who gets
--     what), Timers, UserPort (STP packets of the user), Invariant, Overread, Offers and Run (the
--     loop). Mixnet/Network has the nodes of a network as
--     a relation whose steps are rounds of one node; any packet sent so far may arrive at any
--     neighbour's port.
--   * framework/error.h: Framework/ErrorCode. framework/message.h and framework/message.cpp:
--     Framework/Message, on the byte buffer of Framework/Buffer.
--   * framework/networking.h and framework/networking.cpp: Framework/Networking, with send_generic in
--     Send and recv_generic in Receive; the loop of recv_generic is recv_step, with the branches
--     decode_length, await_message and consume. Addresses has equal_netaddrs, Server has socket,
--     server_setup and server_accept, Connect has connect_with_timeout.
--   * framework/fragment.h and framework/fragment.cpp: Framework/Fragment, with node_send and node_recv
--     in NodeContext, the header checks and the request and response in Header, the tasks of a running
--     test case in Tasks and the states of fragment::run in Machine. Of the functions of these states,
--     Handshake has run_state_setup_ctrl and run_state_setup_pcap, Testcase has
--     run_state_run_testcase, and Setup has the others; Capture has worker_pcap. Framework/Arrays has
--     the arrays in the payloads.
--   * framework/orchestrator.cpp: Framework/Orchestrator, with the states of orchestrator::run in
--     Machine, the header checks and the request to one fragment in Exchange, the request to all of
--     them in Broadcast, the wait for their answers in Responses, change_link_state in Commands,
--     send_packet in Packets, the metadata of the fragments and the lambdas that change it in
--     Fragments. Of the functions of the states, Handshake has run_state_setup_ctrl and
--     run_state_setup_pcap, Setup has those that build the topology, Phases has the start and end of a
--     test case and the shutdown, Reset has run_state_init, run_state_reset and configure. Pcap has
--     pcap_change_subscription and pcap_thread_loop. Headers and Agreement compare the messages that
--     the two sides build and check; Handshake/Introductions, Setup/Config, Setup/Connections,
--     Pcap/Delivery and Fragment/Testcase/Reports join the two sides of one exchange.
--   * testing/common/graph.h and testing/common/graph.cpp: Testing/Graph.
--
-- How they interact: run_node calls mixnet_send and mixnet_recv, which are node_send and node_recv of
-- the fragment's node_context; these send and receive over recv_generic and send_generic. A fragment
-- and the orchestrator exchange messages over the same two functions. Fragment/Delivery joins the node
-- program and node_send.
--
-- The state is passed explicitly. A read or write outside an array and a failed assertion are the
-- result `none`; error codes are values. There is one exception: run_node copies six bytes from
-- behind the header of every packet received, also where the packet was allocated with fewer bytes.
-- C gives that read no meaning and the program goes on with whatever is there; so the model goes on
-- too, with arbitrary bytes, and `overread` in the state of Mixnet/Node/Loop says that it has
-- happened. What is said of the accesses to a node's arrays is said of neighbors_addy and
-- neighbors_blocked. Numbers are natural numbers, and the width of a C integer is written out where
-- a value can exceed it: path_length when a packet is built, the length of a message, the
-- millisecond clock, the uint8_t port and neighbour count. An int16_t address is its bit pattern.
--
-- Loops that wait for the network go through a list of rounds or turns, each with what the calls of
-- that round give and the time after it: foreach_fragment_recv_generic, server_accept,
-- connect_with_timeout, pcap_thread_loop, worker_pcap and run_state_run_testcase. They are `none` where
-- the list ends before the loop does, and the theorems on the first three suppose that the time is
-- over in one of the rounds, which each of these loops waits for at the latest.
--
-- Fuel: node_recv takes one unit for each port and the user's, which one turn needs; fragment::run
-- takes ten, for nine states before DONE, and says apart from the loop whether it then returns or
-- spins until it is killed; orchestrator::run takes thirteen, for its thirteen states. recv_generic
-- and send_generic go through the list of the answers of the socket, and are `none` where the list
-- ends before the loop does.
--
-- Not modelled: what is under external/ (the message queue and the argument parser), printing, the
-- command lines, allocation failures, the locks, the interleaving of the threads of one process, and
-- the test cases.
-- What the system calls, the clock, the message queues and the other threads give is an argument of
-- the definition that uses it.
pub mod Prelude
pub mod Mixnet
pub mod Framework
pub mod Testing
mod Witnesses
