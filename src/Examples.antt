-- ===== src/Examples.antt =====
-- The theorems of the other modules at concrete inputs.
mod TimerRuns
mod PacketIdRuns
mod TopicRuns
mod ClientRuns
mod CallRuns
mod OverflowRuns
mod AppRuns
mod FuzzRuns
