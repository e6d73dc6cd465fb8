-- ===== src/Pattern.antt =====
-- Windows/src/pb_rules.c, pb_util.c: the matchers of rule patterns.
pub mod Wildcard
pub mod TokenList
pub mod Port
pub mod Ipv4
pub mod Ipv6
pub mod Process
pub mod Domain
