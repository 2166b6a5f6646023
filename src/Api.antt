-- ===== src/Api.antt =====
-- pkg/parser/api: the lexer, the parser and the checks of the .api language.
pub mod Token
pub mod Scanner
pub mod ImportStack
pub mod Ast
pub mod Parser
pub mod Filter
pub mod Checks
pub mod Analyzer
pub mod Imports
pub mod Values
mod Tests
