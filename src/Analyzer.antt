-- ===== src/Analyzer.antt =====
-- pkg/parser/api/parser/analyzer.go, from the checked file to the api spec.
pub mod Kind
pub mod Spec
pub mod Convert
pub mod Formed
pub mod Fill
pub mod Exprs
pub mod Resolved
pub mod Service
pub mod ServiceName
