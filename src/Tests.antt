-- ===== src/Tests.antt =====
-- Concrete runs, and the theorems at concrete inputs.
mod Pfcp
mod Sxcups
mod UserPlane
mod ControlPlane
mod Signalling
mod Attach
mod Challenge
mod Epc
mod Radio
mod Gateway
mod Session
mod Path
mod Policy
