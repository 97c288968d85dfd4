-- ===== src/Sxcups/Rules.antt =====
-- sxcups/rules.py: the rule types that the control plane provisions in the user plane. An id is an
-- `Option`, since the decoders return `None` for a value that is too short; a use of such an id as
-- a number raises a TypeError.
pub mod Pdr
pub mod Far
pub mod Qer
pub mod Urr
pub mod Interfaces
