-- ===== src/Sql.antt =====
-- The generator of database models, model/sql: the Go types of columns, and the indexes of a table.
pub mod Names
pub mod Tables
pub mod DataTypes
pub mod Modes
pub mod Columns
pub mod Grouping
pub mod Indexes
pub mod Fields
pub mod FieldMap
