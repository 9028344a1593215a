-- ===== src/Ansname.antt =====
-- pkg/ansname: names of agents, version ranges and version negotiation.
pub mod Patterns
pub mod Record
pub mod Dots
pub mod Parse
pub mod Semver
pub mod Range
pub mod Negotiate
