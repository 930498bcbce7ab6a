-- ===== src/Tests.antt =====
-- The library at concrete inputs.
mod TableRuns
mod HashRuns
mod EnvRuns
mod ArithRuns
mod BitsetRuns
mod PairRuns
mod ModuleRuns
mod AssocRuns
mod StackRuns
mod GlobalRuns
mod RandomRuns
mod DlistRuns
mod CallocRuns
mod VectorRuns
mod TextRuns
