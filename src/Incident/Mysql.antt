-- ===== src/Incident/Mysql.antt =====
-- `MySQLStore` of internal/incidentapi/mysql_store.go.
pub mod Database
pub mod Calls
pub mod Reads
pub mod Writes
pub mod Tables
pub mod Listing
pub mod Server
pub mod Rules
pub mod Effects
pub mod Bodies
pub mod Found
pub mod Atomic
pub mod Single
pub mod Outcomes
pub mod ReadBack
pub mod Created
pub mod RoundTrip
pub mod Reading
pub mod Queries
pub mod Answers
pub mod Allowed
pub mod Success
