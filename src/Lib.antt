-- ===== src/Lib.antt =====
-- goctl reads api files, written in its own language, and generates services from them. This
-- library models the front end of that language, in pkg/parser/api, the ordered map that the
-- generators share, in pkg/collection, the rules for the names of generated code and files, in
-- util, and the types and indexes of the columns of a database, in model/sql.
--
-- The scanner turns the runes of a file into tokens, one for each call of `NextToken`; the parser
-- keeps a current token and the next one, calls the scanner for more, collects comments, and builds
-- the syntax tree; every failure is added to the parser's list of errors. `parseReverse` gathers
-- the statements of the tree into an `API`, reads and merges the files it imports, and `SelfCheck`
-- tests the result for duplicates and undeclared types; the analyzer turns it into an `ApiSpec`,
-- from which the generators work.
--
-- Base: notation and lemmas on lists, texts and numbers. A Go string or []rune is the list of its
--   code points, but for Util/Naming, which needs the bytes, a rune or an int a natural number.
-- Token (pkg/parser/api/token/token.go, position.go): Token/Kind has the constants, Token/Tables
--   the printed forms, `keywords` and the maps of methods and base types, Token/Defs `Token`,
--   `Position` and the methods on them. `trim_white_space` is `TrimWhiteSpace` of util/string.go.
-- Scanner (pkg/parser/api/scanner/scanner.go): Scanner/State has the struct, the character classes
--   and the moves over the input; Scanner/Words names and line comments; Scanner/Duration numbers
--   and durations; Scanner/Quoted strings, documents and `@` words; Scanner/Next `NextToken` and
--   `NewScanner`. A method that writes to `*Scanner` returns the new state. The other modules below
--   Scanner hold proofs: Valid the invariant, Skip the blanks, Loops, Lexeme, WordLexeme, AtWord
--   and NextToken the token of a call, Progress sequences of calls, Ahead, Munch and Document the
--   text that a token takes in.
-- SortedMap (pkg/collection/sortedmap.go): SortedMap/Defs has the list of elements, each with an
--   address, and the map from keys to addresses; a key or value is a string or another comparable
--   value. SortedMap/View is the association list that a map stands for.
-- ImportStack (pkg/parser/api/importstack/importstack.go): the stack of the files that are
--   imported.
-- Ast (pkg/parser/api/ast): the nodes that the parser builds, without their unexported flags;
--   Ast/Nodes the methods of `TokenNode`, of comments and of data types that do not print.
-- Parser (pkg/parser/api/parser/parser.go): Parser/State has the struct and the monad of a call
--   that returns a value, returns nil or false, or panics; Parser/Tokens the tests and moves over
--   tokens, Parser/Types, Parser/Routes, Parser/Values and Parser/Statements the parse functions,
--   under the names of the source. The other modules below Parser hold proofs: Measure, Advance,
--   Moves, RouteEnds, TypeEnds and Ends on the fuel, Reports, TokenReports, TypeReports and
--   RouteReports on the list of errors, MissingPath on routes without a path.
-- Api (pkg/parser/api/parser/api.go, filter.go, error.go): Api/Errors has `errorManager` and the
--   result `Run` of a Go function: a value, a value beside an error, a panic, or a run cut off by
--   its fuel. Api/Filter has the filter with its builders, Api/Convert `convert2API`, Api/Checks
--   and Api/ServiceChecks the checks, Api/Import `mergeAPI`, `parseImportedAPI` and `parseReverse`,
--   and Api/SelfCheck `SelfCheck`. The other modules below Api hold proofs: Laws, Unique, Filtered
--   and Duplicates on errors and filters, Gather on `convert2API`, Resolve on type names, Services
--   and Answers on the checks of services, Merge, Post, Paths and Walk on the imports.
-- Analyzer (pkg/parser/api/parser/analyzer.go): Analyzer/Spec has the types of api/spec/spec.go,
--   Analyzer/Kind the base types, Analyzer/Convert `astTypeToSpec` and `fieldToMember`,
--   Analyzer/Fill `fillTypes` and Analyzer/Service the rest of the analyzer. Formed, Exprs,
--   Resolved and ServiceName hold proofs.
-- Util: Util/SafeName has util/string.go, Util/Naming util/format/format.go, where formats and
--   results are bytes, and Util/Utf8 the bytes of runes; SafeNames, Keywords, Pieces and Offsets
--   hold proofs.
-- Sql (model/sql): Sql/Names, Sql/Tables and Sql/DataTypes have converter/types.go, Sql/Columns
--   `Convert` of model/infoschemamodel.go and Sql/Fields `getTableFields` of parser/parser.go;
--   Modes, Grouping, Indexes and FieldMap hold proofs.
--
-- Choices. An entry of `lines` is the source's entry plus one, since the source begins with -1 and
-- numbers here do not go below zero. An error is the parts of its message, not the formatted text.
-- A value that the source takes from a map of nodes may be nil; reading a field of it is a panic.
-- The file name of a position is the one that `filepath.Base` returned, that of an `API` is a path.
-- An error of api.go is the list of the problems that it joins, each with its position and what it
-- is about.
--
-- Parameters. What a file that is imported parses to is the function `load`; the functions of
-- path/filepath are the record `FilePath`; the order in which Go ranges over a map is the function
-- `order`. The texts that the `Writer` prints through text/tabwriter are `written`, `route_text`,
-- `name_text` and `body_text`. The functions of the package strings on letters are `to_upper`,
-- `to_lower` and `title`. The experimental mode and the custom types of the configuration are
-- `use_experimental` and `types_map`.
--
-- Loops. A loop of the scanner over runes has one round for each rune of the input and one more
-- (`rounds`), a loop over a string or a document two more, since each round reads a rune: none of
-- them is cut off on a valid scanner. The loop over comments has two rounds more than the input has
-- runes. Each loop of the parser and each nested data type takes one unit of a fuel that is a
-- parameter of the parse functions; a result `diverged` says that it ran out. Every round reads a
-- token, so that the length of the text and three more are enough for `parse`. `parseReverse` takes
-- a unit of fuel for each file that it is nested in; more units than there are files, reached by
-- imports, outside the set of imported files are enough, since a file goes into the set before its
-- imports are walked.
--
-- Not modelled: reading files, logging and exits (`NewScanner` begins behind the reading); the
-- formatting of messages and of syntax trees; `Format` of the ordered map; of the analyzer,
-- documents and comments, the positions of errors, the order in which it sorts at the end and the
-- title case of info keys; the older parser in api/parser; of model/sql, the queries, and the parts
-- over the DDL parser and the sets of go-zero; the generators and commands, which fill templates
-- and run programs.
pub mod Base
pub mod Token
pub mod Scanner
pub mod SortedMap
pub mod Ast
pub mod Api
pub mod Analyzer
pub mod Util
pub mod Sql
pub mod Parser
pub mod ImportStack
pub mod Tests
