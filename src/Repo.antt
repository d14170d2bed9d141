-- ===== src/Repo.antt =====
-- The package repo: the database models and the transactions around gorm.
pub mod Models
pub mod Gorm
pub mod Database
pub mod Memory
pub mod Version
pub mod AppData
pub mod Ulimit
pub mod Config
pub mod Bindata
