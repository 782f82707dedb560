-- ===== src/Parser.antt =====
-- include/parser.h, src/parser.c: the recursive descent parser, with the checks of sema.c that it
-- calls on the way.
pub mod Monad
pub mod Tokens
pub mod Expr
pub mod Decl
pub mod Stmt
pub mod TopLevel
pub mod Relation
pub mod Errors
pub mod Scopes
pub mod Ending
pub mod Crashes
pub mod Halting
