-- ===== src/Parser.antt =====
-- pkg/parser/api/parser/parser.go over the scanner. State has the parser's state and the actions,
-- Tokens the tests and moves over tokens; Types, Routes, Values and Statements have the parse
-- functions. The other children prove.
pub mod State
pub mod Tokens
pub mod Types
pub mod Routes
pub mod Values
pub mod Statements
pub mod Reports
pub mod TokenReports
pub mod TypeReports
pub mod RouteReports
pub mod Measure
pub mod Advance
pub mod Moves
pub mod RouteEnds
pub mod TypeEnds
pub mod Ends
pub mod MissingPath
