-- ===== src/Lib.antt =====
-- zctl: the lexer, the parser and the checks of the .api language, the walk over proto imports, the
-- scan, the plan and the merge of desc/ protos, the naming rules of the generators, and the ordered
-- map that they share, as functions over explicit state.
--
-- The program is a command line tool that generates go-zero services. Its input languages are read
-- by parsers, the results are turned into names, and names and annotations are kept in ordered maps
-- until templates are filled. This library models the parts that decide what the tool means by its
-- input: how .api text becomes tokens and a tree, what a tree may declare and which files it
-- imports (pkg/parser/api), which files a proto file imports (rpc/parser), what the generator reads of
-- the protos that are there and takes back when it fails (rpc/generator), how identifiers become
-- file, package and Go names (util/name, util/stringx, util/string.go), and the insertion-ordered
-- map (pkg/collection).
--
-- Files and the code they model:
--   Base            shared names, tests, lists over native numbers, runes, integers, Go's functions
--                   on strings (Strings), permutations (Perms), and the count of what a walk over a
--                   list of files has left (Remaining); no code.
--   Api/Token       pkg/parser/api/token: token types by their iota, tokens, tables.
--   Api/ImportStack pkg/parser/api/importstack: Push and Pop.
--   Api/Scanner     pkg/parser/api/scanner/scanner.go: the Scanner struct and its primitive moves.
--     Literals      scanLineComment, scanString, scanDocument, scanIdent, scanAt.
--     Durations     scanIntOrDuration and the methods for the units.
--     Next          NextToken; its switch is cut into four functions in the order of its cases.
--     Invariant, Reading, Total, Runs, Behind, Strings, Documents   proofs.
--   Api/Ast         pkg/parser/api/ast: the nodes of the tree.
--   Api/Parser      pkg/parser/api/parser/parser.go: the Parser struct, nextToken, tests of tokens.
--     Types         parseTypeStmt, parseDataType and what they call.
--     Values        parseInfoStmt, parseAtDocStmt, parseAtServerStmt and their pairs.
--     Routes        parseRouteStmt, parsePathExpr and what they call.
--     Services      parseService and its items.
--     Stmts         Parse, parseStmt, the syntax and import statements.
--     Progress, Rules, Total, Safety   proofs: Rules has a rule for each way to build a method, and
--                   the modules of Total go through the methods with them.
--   Api/Filter      pkg/parser/api/parser/filter.go: the filter for declarations that stand twice.
--   Api/Checks      pkg/parser/api/parser/api.go: convert2API and the checks of imports, info and
--                   types; Types has the checks of declared types, and IsBaseType of analyzer.go.
--     Names         what statements declare and import, read off them apart from the code.
--     Convert, Declared, Twice   proofs.
--   Api/Analyzer    pkg/parser/api/parser/analyzer.go: Parse up to convert2API; Load has the proof.
--   Api/Imports     parseReverse, parseImportedAPI and mergeAPI of api.go; Leaves and Returns have
--                   proofs.
--   Api/Values      RawText of pkg/parser/api/ast/ast.go, convertKV and convertAtDoc of the analyzer;
--                   Quoted and Last have proofs.
--   Collection      pkg/collection/sortedmap.go, with Go's `any` in Collection/Any.
--   Util            util/stringx/string.go (Stringx), util/name/naming.go (Name), util/string.go
--                   (Safe, Keywords), util/format/format.go (Format); Casing is the
--                   parameter for Unicode's case tables.
--   Rpc/Imports     rpc/parser/import.go: ResolveImports and what it calls.
--     Reach         the specification: which files a file imports, through others too.
--     Found, Closed, Total, Result   proofs.
--   Rpc/Names       rpc/parser/parser.go: CamelCase and GoSanitized; proofs in Camel, Sanitized.
--   Rpc/TypeRef     rpc/generator/typeref.go: the Go types of proto types; Agreement has the proof.
--   Rpc/Desc        rpc/generator/ent/gen.go, as far as it reads the protos in desc/.
--     Fields        parseProtoFieldLine, sortFieldSigsByTag, messageFieldsEqual. Printed has the lines
--                   that are fields; Same, Words, Reading have proofs.
--     Comments      stripBlockComments and stripLineComment; Free has the proof.
--     Scan          parseProtoFile; its loop over a line is `step`, its closures open and close frames.
--                   Grammar has the specification; Kept, Total, Blocks, Lines, Reads, Forgotten have
--                   proofs.
--     Plan          addSchema on the index of the scan; Sets, Loops, Served have proofs.
--     Tracker       the fileTracker: snapshot, trackExtra, rollback; Restores, Deepest have proofs.
--   Rpc/Merge       rpc/generator/mergeproto.go: MergeDescProtos on the lines of its files; Lines and
--                   Services have proofs.
--   */Tests         evaluations and instances of the theorems.
--
-- Conventions. A Go string is the list of its runes; where the source indexes bytes the model says
-- so, and where it compares the lengths of paths `byte_len` counts the bytes. A method that changes
-- its receiver returns the new state. An error with a state is a result value; a Go panic is a value
-- of its own. The field `data` of Scanner is called `source`, and
-- golang keyword types carry the suffix `_kw`, since these words are taken in this language. An
-- error message is kept as its parts (position, expected, actual), before fmt joins them.
--
-- Loops. `readRune` loops of the scanner get one round more than the source has runes: a rune other
-- than 0 stands inside the source, so each round leaves fewer. A loop of `scanString` and
-- `scanDocument` that runs out is the outcome `out_of_fuel`. The loop of `DashName` gets a round
-- for each rune, since each round shortens the text; so do those of stripBlockComments and of the
-- scan of a line. The recursions of collectImports and of parseReverse, whose depth is the number of
-- files at most, take their fuel as an argument. A parsing method passes its fuel on to its loops
-- and to the methods in them, each a round less, so that two rounds more than there are runes are
-- enough; a method that runs out is `no_fuel`. All other loops recur on a list.
--
-- Parameters. `Casing` stands for unicode.ToLower and unicode.ToUpper with documented facts of
-- their tables. `unicode.IsSpace`, `unicode.IsLetter`, `unicode.IsDigit`, the test for Go's
-- keywords and `cases.Title` and `strings.Title` are function arguments. `Files` of Rpc/Imports
-- stands for the file system, the path functions, and parseImportFilenames, which calls a
-- third-party parser; `Files` of Api/Imports for the file system, the path functions, and the order
-- in which Go walks over a map. Rpc/Desc/Tracker is given a disk, whose files and directories are
-- lists of paths, the path functions, which paths may be removed, and that order. The four
-- regular expressions of MergeDescProtos are tests on lines.
--
-- Parsing methods. A method returns a value, or nil (or false), or panics; in the model a bind `x ←
-- m` stands for `x := m(); if x == nil { return nil }`. The map from tokens to nodes is a list,
-- latest first, and a node that the tree holds is a copy of the one in the map at that time.
-- Reading a field of a missing node is a panic.
--
-- Pointers. `SortedMap` holds its elements in a list and a map from keys to pointers to them; a
-- pointer is the number with which its element was allocated, and reads and writes go through it.
--
-- Not modelled: reading files, the printer of the tree, the check of services (which compares
-- printed routes), the rest of the conversion to the specification, the code generators and their
-- templates but for the parts named above, and the performance checkers.
pub mod Base
pub mod Api
pub mod Collection
pub mod Util
pub mod Rpc
