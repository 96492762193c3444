-- ===== src/Tests.antt =====
-- Runs of the definitions at concrete inputs, and the theorems applied to such inputs.
mod Args
mod Hooks
mod Input
mod Load
mod Main
mod Output
mod Parse
mod Seal
mod Signals
mod State
