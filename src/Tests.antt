-- ===== src/Tests.antt =====
-- Runs of the modelled code on concrete systems, and the theorems applied to them.
mod Mounts
mod Tracking
mod Parsing
mod Syscalls
mod Libmounting
mod Utilities
mod Programs
mod Merging
mod Lookup
mod Building
mod Watching
