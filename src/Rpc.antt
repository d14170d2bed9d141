-- ===== src/Rpc.antt =====
-- The package rpc: the gRPC server of rpc/server.go over the crawler.
pub mod Models
pub mod Profile
pub mod Stream
pub mod Unary
pub mod Notices
