-- ===== src/Tests.antt =====
-- The theorems at concrete inputs, and runs of the definitions.
mod RulesRuns
mod ModelRuns
mod GeneratorRuns
mod TaskRuns
mod IdlRuns
mod SignalRuns
mod RepoRuns
mod SolutionRuns
mod SolRuns
mod WordRuns
