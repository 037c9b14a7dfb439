-- ===== src/Util.antt =====
-- The text utilities of util/string.go, util/stringx/string.go and util/format/format.go.
pub mod SafeName
pub mod SafeNames
pub mod Keywords
pub mod Utf8
pub mod Naming
pub mod Pieces
pub mod Offsets
