-- ===== src/Core/Cpf.antt =====
-- core/cpf.py: the control-plane function, which drives user-plane functions over PFCP.
pub mod State
pub mod Dispatch
pub mod Requests
pub mod NodeProcedures
pub mod SessionProcedures
pub mod SessionChanges
pub mod Steps
pub mod Keeps
pub mod Invariant
pub mod Correlation
