-- ===== src/Types.antt =====
-- web/lib/types.ts: the shapes of the API. An optional field and a field that may be null are
-- `Option`, a union of string literals is a data type with a constructor for each literal (`no_value`
-- for "none", `never` for "no"), a dictionary is an association list, an ISO date is its text.
-- Numbers are natural numbers in the unit that the API reports, and integers where -1 is a value; a
-- percentage is counted in hundredths of a percent.
pub mod Account
pub mod Hosts
pub mod Containers
pub mod Stacks
pub mod Storage
pub mod Jobs
pub mod Github
pub mod Uptime
pub mod Alerts
pub mod Mcp
pub mod Settings
pub mod System
pub mod Fleet
pub mod Deploy
pub mod Registry
pub mod Machines
pub mod Impact
