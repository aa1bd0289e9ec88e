-- ===== src/Routing.antt =====
-- src/config.ts: the routing tables in memory, and how a request finds its upstream routes.
-- `Types` has the configuration, `Tables` the tables, `Routes` the routes of one channel, `Resolve`
-- the lookups by model and `Models` the list of models. A `none` outside all other results is an
-- exception that the source throws. Channel names that `Object.prototype` has are left out.
pub mod Types
pub mod Tables
pub mod Routes
pub mod Resolve
pub mod Models
pub mod Selection
pub mod Targets
pub mod Listing
pub mod Mutations
pub mod Tests
