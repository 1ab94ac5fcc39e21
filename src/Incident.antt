-- ===== src/Incident.antt =====
-- internal/incidentapi: the incident service.
pub mod Types
pub mod Requests
pub mod Clone
pub mod Contents
pub mod Repository
pub mod Store
pub mod Commands
pub mod Lifecycle
pub mod Calls
pub mod Numbering
pub mod Invariant
pub mod Runs
pub mod Listings
pub mod Server
pub mod Api
pub mod Serving
pub mod Exchanges
pub mod Outcomes
pub mod Mysql
pub mod Pages
pub mod Waiting
pub mod Interleaving
mod Examples
