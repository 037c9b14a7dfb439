-- ===== src/Tests.antt =====
-- Runs of the definitions on small inputs, and the theorems at inputs that meet their hypotheses.
mod Scan
mod Maps
mod Parse
mod Imports
mod Checks
mod Names
mod Analyze
mod Models
mod Walk
