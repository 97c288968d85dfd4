-- ===== src/Sxcups.antt =====
-- sxcups/: the rules, the session contexts and the reports of the Sx interface.
pub mod Rules
pub mod Session
pub mod Store
pub mod Reporting
