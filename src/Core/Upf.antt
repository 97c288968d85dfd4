-- ===== src/Core/Upf.antt =====
-- core/upf.py: the user plane function.
pub mod State
pub mod NodeProcedures
pub mod Rules
pub mod SessionProcedures
pub mod Dispatch
pub mod Traffic
pub mod Invariant
pub mod TeidAllocation
