-- ===== src/Tracker.antt =====
-- src/netns_tracker.rs: which network namespaces there are, and which process is in which.
pub mod State
pub mod Streams
pub mod MountState
pub mod Search
pub mod Events
pub mod Invariant
pub mod Placement
pub mod Report
pub mod Mirror
pub mod Answers
