-- ===== src/Core/Mme.antt =====
-- core/mme.py: the mobility management entity.
pub mod State
pub mod S11
pub mod Downlink
pub mod Request
pub mod S6a
pub mod Handlers
pub mod Identity
pub mod Authentication
pub mod Attach
pub mod Numbers
