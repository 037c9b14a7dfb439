-- ===== src/Api.antt =====
-- The checks on a parsed file and its imports, pkg/parser/api/parser/api.go with filter.go and
-- error.go.
pub mod Errors
pub mod Filter
pub mod Unique
pub mod Filtered
pub mod Convert
pub mod Checks
pub mod ServiceChecks
pub mod Laws
pub mod Resolve
pub mod Duplicates
pub mod Gather
pub mod Answers
pub mod Services
pub mod Import
pub mod Post
pub mod Paths
pub mod Merge
pub mod Walk
pub mod SelfCheck
