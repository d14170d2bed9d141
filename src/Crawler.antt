-- ===== src/Crawler.antt =====
-- The package crawler.
pub mod Network
pub mod Peers
pub mod Graph
pub mod Records
pub mod Worker
pub mod Ticks
pub mod Pubsub
pub mod Subs
pub mod Cancel
pub mod Server
pub mod Resolver
pub mod System
pub mod Launch
pub mod Start
pub mod Stop
