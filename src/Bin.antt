-- ===== src/Bin.antt =====
-- src/bin: what the command line programs do with the library's answers, up to the formatting of a line.
pub mod ListNetDevices
pub mod Display
pub mod NetnsTracker
pub mod PrintEvents
