-- ===== src/Framework/Orchestrator/Handshake/Introductions.antt =====
-- framework/fragment.cpp and framework/orchestrator.cpp: the process number in a SETUP_CTRL response.
use fall23_p.Prelude.{ℕ, arith, false, ◌<◌, ◌^◌, ◌≡◌, some, refl, ◌≤◌, ◌∙◌, inr, sym}
use fall23_p.Framework.ErrorCode.{success}
use fall23_p.Framework.Buffer.{Buffer, write32, read32, read32-write32, read32-agree}
use fall23_p.Framework.Message.{MessageType, finalize}
use fall23_p.Framework.Message.Length.{payload_bytes}
use fall23_p.Framework.Fragment.Header
use fall23_p.Framework.Fragment.Handshake.{pid_payload}
use fall23_p.Framework.Orchestrator.Exchange.{check_header}
use fall23_p.Framework.Orchestrator.Headers.{Keeps}
use fall23_p.Framework.Orchestrator.Agreement.{response-check_header}
use fall23_p.Framework.Orchestrator.Fragments.{response_pid}
use fall23_p.Framework.Orchestrator.Handshake.Assigning.{Introduces}

-- Without a check of the number, the header check is the same for each fragment.
check_header-any :
    (m : Buffer) (i fid : ℕ) (t : MessageType)
    → check_header m false i t ≡ check_header m false fid t
unfolding check_header
check_header-any m i fid t = refl

pid_payload-Keeps : (pid : ℕ) (b : Buffer) → Keeps b (pid_payload pid b).1
unfolding pid_payload write32
pid_payload-Keeps pid b i = ground arith

-- The response of a fragment of any number introduces its process, on any socket.
pub pid_payload-Introduces :
    (b : Buffer) (fid i pid : ℕ) (pid_of : ℕ → ℕ)
    → fid < 2 ^ 16
    → pid < 2 ^ 32
    → pid_of i ≡ pid
    → (m : Buffer) × (finalize
          (pid_payload pid (Header.prepare_header b fid MessageType.setup_ctrl success)).1
        ≡ some m)
      × Introduces pid_of i (success, m)
unfolding payload_bytes pid_payload response_pid
pid_payload-Introduces b fid i pid pid_of range fits same =
    let fill = λ (c : Buffer). write32 c 8 pid in
    let prepared = Header.prepare_header b fid MessageType.setup_ctrl success in
    let (m, sealed, passes, carries) =
      response-check_header b false fid MessageType.setup_ctrl fill range
        (pid_payload-Keeps pid prepared) tt (omega arith) in
    let at : (j : ℕ) → 8 ≤ j → j < 12 → m j ≡ fill prepared j =
      λ j low high. ground (arith, carries j) in
    let read : read32 m 8 ≡ pid =
      read32-agree (fill prepared) m 8 (at 8 (omega arith) (omega arith))
        (at 9 (omega arith) (omega arith)) (at 10 (omega arith) (omega arith))
        (at 11 (omega arith) (omega arith))
      ∙ read32-write32 prepared 8 pid fits in
    (
      m,
      sealed,
      (
        inr (success, check_header-any m i fid MessageType.setup_ctrl ∙ passes),
        (λ _. read ∙ sym same),
      ),
    )
