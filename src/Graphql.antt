-- ===== src/Graphql.antt =====
-- src/graphql: documents composed from resolver queries.
pub mod Json
pub mod Cache
pub mod Query
pub mod TypeBody
pub mod Schema
pub mod Run
pub mod Loader
pub mod Executor
