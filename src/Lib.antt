-- ===== src/Lib.antt =====
-- A model of cactc, a compiler front end for CACT: lexer, parser with type checks on the way, and
-- the command line that runs them on a file.
--
-- The program is a pipeline without stages that stand apart: main (src/main.c) reads a file into
-- fluf's source manager and calls parser_parse, the parser pulls tokens from the lexer one at a
-- time, defines and looks up names in the scopes of sema.c, and hands each operator, assignment
-- and return to the checks there. All report through ctx_error, which writes to stderr and sets
-- the flags that decide the exit status.
--
-- The files:
--   Platform     what the program calls and does not implement, as parameters: fluf's maps,
--                interner, source manager and character classes (vendor/fluf, a submodule), the
--                number conversions of libc. Platform/Laws: what theorems assume of them.
--   Outcome      how a run ends: with a result, at a read through a pointer that leads nowhere
--                (`fault`), or for want of fuel.
--   Token        include/token.h, include/token.def, src/token.c
--   Types        include/type.h, src/type.c. A type is an object of an arena, a pointer an
--                address; the five global pointers stand in the store. Types/Shape has the types
--                that pointers denote, Types/Equality and Types/Globals the comparisons,
--                Types/Store allocation, Types/Ranked the arenas without cycles.
--   Context      include/context.h, src/context.c. The context holds the arena's types and what
--                was written to stderr. Context/Keywords is about the table of keywords.
--   Lexer        include/lexer.h, src/lexer.c: Lexer/Trivia has skip_whitespace, Lexer/Scan the
--                scanners, Lexer/Next lexer_next, Lexer/Cursor the loops over a class of bytes,
--                Lexer/Comments and Lexer/Skipping the ends of skip_whitespace, Lexer/Grammar
--                what it skips, Lexer/Progress the bytes that a token takes, Lexer/Rest,
--                Lexer/Words, Lexer/Spelling, Lexer/Printing and Lexer/Numbers the texts of tokens.
--   Ast          include/ast.h
--   Sema         include/sema.h, src/sema.c. Sema/Operators, Sema/Returns and
--                Sema/Scopes have the rules that its checks follow.
--   Parser       include/parser.h, src/parser.c, a file for each part of it: Parser/Tokens,
--                Parser/Expr, Parser/Stmt, Parser/Decl, Parser/TopLevel. Parser/Relation has the
--                induction over a whole parse, Parser/Errors and Parser/Scopes its uses.
--                Parser/Halting counts the tokens left, through each part of the parser, and
--                Parser/Ending is about where a parse stops, Parser/Crashes about missing operands
--                and values.
--   Driver       src/main.c, with the end of every run in Driver/Halting and Driver/Reading.
--   Ascii        a concrete platform. Witnesses: runs and theorems on it.
--
-- The pointers from parser, lexer and sema to the one context are modelled by passing the context
-- along. A C function keeps its name; the pieces of one that is long have names of their own.
--
-- Loops over the input and the recursion of the parser take fuel. A loop of the lexer has as much
-- as there are bytes left, and one more; type_eq has two more than there are objects in the arena;
-- a parse of n bytes has 32 * (n + 4): the grammar's levels take fewer than 32 calls for a token.
-- A loop of the lexer that runs out of fuel sets `cut_off`, which the program does not have, and
-- next_token then gives no result but want of fuel: so the end of a parse is the end of these loops.
-- A theorem on a result speaks of runs that give one, and not of those that read through a null or
-- unwritten pointer, as the program does after some errors.
--
-- Not modelled: want of memory, the release of memory other than that of the global types, the
-- texts of the usage and of log lines, and what fluf does.
pub mod Prelude
pub mod Platform
pub mod Token
pub mod Outcome
pub mod Types
pub mod Context
pub mod Lexer
pub mod Ast
pub mod Sema
pub mod Parser
pub mod Driver
pub mod Ascii
mod Witnesses
