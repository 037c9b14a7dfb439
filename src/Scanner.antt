-- ===== src/Scanner.antt =====
-- pkg/parser/api/scanner/scanner.go. State has the scanner and its moves over the input, Words the
-- comments and names, Duration the numbers, Quoted the strings, documents and `@` words, and Next
-- the constructor and `NextToken`. The other children prove.
pub mod State
pub mod Words
pub mod Duration
pub mod Quoted
pub mod Next
pub mod Valid
pub mod Lexeme
pub mod WordLexeme
pub mod Loops
pub mod AtWord
pub mod Skip
pub mod NextToken
pub mod Ahead
pub mod Munch
pub mod Document
pub mod Progress
