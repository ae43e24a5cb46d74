-- ===== src/Witnesses.antt =====
-- Concrete runs of the program at which the theorems with hypotheses apply.
mod NodeRuns
mod FragmentRuns
mod MessageRuns
mod SocketRuns
mod ExchangeRuns
mod GraphRuns
mod HandshakeRuns
mod ServerRuns
mod SetupRuns
mod CommandRuns
mod ResetRuns
mod NetworkRuns
