-- ===== src/Tests.antt =====
-- A concrete host, tests of the definitions, and the theorems at concrete inputs.
mod Host
mod Samples
mod Matching
mod Diff
mod Model
mod Check
mod Contrast
mod Naming
mod Output
mod Rpc
mod Lines
mod Store
mod Effects
mod Uniform
mod Agents
