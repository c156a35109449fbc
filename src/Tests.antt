-- ===== src/Tests.antt =====
-- Concrete runs of the library's functions and instances of its theorems.
mod Replication
mod Replicate
mod Rules
mod Filter
mod Wire
mod Client
mod EndToEnd
mod Consume
mod Applier
mod Graphql
mod Query
mod Schema
