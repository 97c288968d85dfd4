-- ===== src/Core.antt =====
-- core/: the network functions.
pub mod Datagrams
pub mod GtpuNode
pub mod Hss
pub mod Pcrf
pub mod Enb
pub mod Pdn
pub mod Mme
pub mod Ue
pub mod Upf
pub mod Cpf
pub mod Procedures
pub mod Epc
pub mod Sgwc
pub mod Pgwc
