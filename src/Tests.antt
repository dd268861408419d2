-- ===== src/Tests.antt =====
-- Concrete runs of the modelled code, and the theorems at concrete inputs.
mod CodecRuns
mod SchemaRuns
mod CrcRuns
mod WalRuns
mod RecoveryRuns
mod PoolRuns
mod CrashRuns
mod PageRuns
mod ObjectRuns
