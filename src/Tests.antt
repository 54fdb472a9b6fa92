-- ===== src/Tests.antt =====
-- Concrete queues, pools and evaluations, on which the theorems of the library are applied.
mod Data
mod QueueRuns
mod EvalRuns
mod PoolRuns
mod EstimateRuns
mod GcRuns
mod ValueRuns
mod SpecRuns
mod KarpenterRuns
mod StreamRuns
mod StartRuns
mod ThreadRuns
mod DumpRuns
mod CreateRuns
