-- ===== src/Token.antt =====
-- pkg/parser/api/token: token types (Kind), their texts and lookups (Tables), tokens with their
-- positions (Defs), and what the tables guarantee (Keywords).
pub mod Kind
pub mod Tables
pub mod Defs
pub mod Keywords
