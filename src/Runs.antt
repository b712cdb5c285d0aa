-- ===== src/Runs.antt =====
-- The theorems at concrete inputs, with an implementation of the crates that the program calls.
mod Host
mod CodecRuns
mod DocRuns
mod AwarenessRuns
mod ProtocolRuns
mod StoreRuns
mod UpdateRuns
mod IntegrateRuns
