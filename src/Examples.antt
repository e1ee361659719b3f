-- ===== src/Examples.antt =====
-- The theorems at concrete inputs, and tests of the definitions.
mod Data
mod Deploy
mod Loop
mod Files
mod Budget
mod Records
mod Reports
mod Trust
mod Scores
mod Store
mod Normalize
