-- ===== src/Gateway/Mysql.antt =====
-- `MySQLStore` of internal/opsgateway/mysql_store.go.
pub mod Database
pub mod Queries
pub mod Store
pub mod Server
pub mod Effects
pub mod Verifying
pub mod Runs
