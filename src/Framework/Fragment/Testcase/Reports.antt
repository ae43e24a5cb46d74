-- ===== src/Framework/Fragment/Testcase/Reports.antt =====
-- framework/fragment.cpp and framework/orchestrator.cpp: how the error of a task reaches the
-- orchestrator.
use fall23_p.Prelude.{Bool, true, false}
use fall23_p.Framework.ErrorCode.{ErrorCode}
use fall23_p.Framework.Buffer.{Buffer}
use fall23_p.Framework.Message.{MessageType}
use fall23_p.Framework.Orchestrator.Exchange
use fall23_p.Framework.Fragment.NodeContext.{NodeContext}

-- A command that a fragment serves while a test case runs.
abbrev pub IsCommand : MessageType → Type 0
IsCommand MessageType.change_link_state = Unit {0}
IsCommand MessageType.pcap_subscription = Unit {0}
IsCommand MessageType.send_packet = Unit {0}
IsCommand MessageType.end_testcase = Unit {0}
IsCommand _ = ⊥

-- The command that ends the test case.
abbrev pub is_end : MessageType → Bool
is_end MessageType.end_testcase = true
is_end _ = false
