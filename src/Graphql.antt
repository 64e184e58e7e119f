-- ===== src/Graphql.antt =====
-- graphql/: the API over a download service.
pub mod Types
pub mod Scalars
pub mod Schema
pub mod Server
