-- ===== src/App.antt =====
-- tweak-app/src: the server and client contexts over a model of items, an index of their uris and a
-- queue of jobs.
pub mod Table
pub mod Assoc
pub mod Features
pub mod Item
pub mod Model
pub mod Index
pub mod Paired
pub mod Queue
pub mod Compatibility
pub mod Server
pub mod Client
pub mod Query
pub mod Mirror
