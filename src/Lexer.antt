-- ===== src/Lexer.antt =====
-- include/lexer.h, src/lexer.c: the lexer's state and its cursor. The context that a lexer points
-- to is passed beside it.
pub mod Trivia
pub mod Scan
pub mod Next
pub mod Cursor
pub mod Comments
pub mod Skipping
pub mod Grammar
pub mod Rest
pub mod Spelling
pub mod Words
pub mod Printing
pub mod Numbers
pub mod Progress
use cact.Prelude.{
  ℕ, zero, suc, ◌+◌, ◌-◌, Bool, true, false, Option, none, some, leb, ◌==◌, if◌then◌else◌, length,
  get_or, Bytes,
}
use cact.Context.{Context}
use cact.Platform.{Platform}

-- The cursor of `struct Lexer` and the file that it reads; `content_len` is the length. `cut_off`
-- is not of the program: a loop ran out of fuel, where the program's might go on for ever.
pub record Lexer : Type 0 where
  pub file_id : ℕ
  pub content : Bytes
  pub cursor : ℕ
  pub cut_off : Bool

-- `none` if the file is not found: the program panics.
unfoldable pub lexer_init : ⦃env : Platform⦄ → Context → ℕ → Option Lexer
lexer_init ⦃env⦄ ctx file_id = elim (env.srcmanager_get_file ctx.mgr file_id) [
  | none ↦ none
  | some file ↦
      some (record { file_id = file_id; content = file.content; cursor = 0; cut_off = false })
]

-- A byte of the source at an index within its length.
abbrev pub content_at : Lexer → ℕ → ℕ
content_at l i = get_or l.content i 0

unfoldable pub peek : Lexer → ℕ
peek l = if leb (length l.content) l.cursor then 0 else content_at l l.cursor

unfoldable pub peek_next : Lexer → ℕ
peek_next l = if leb (length l.content) (l.cursor + 1) then 0 else content_at l (l.cursor + 1)

-- `advance` with its result unused.
unfoldable pub advance : Lexer → Lexer
advance l = if leb (length l.content) l.cursor then l else record l { cursor = l.cursor + 1 }

-- `advance` where its result is used: the byte is that of `peek` before.
unfoldable pub advance_char : Lexer → ℕ × Lexer
advance_char l = (peek l, advance l)

-- The cursor moves without a test of the length.
unfoldable pub match_char : Lexer → ℕ → Bool × Lexer
match_char l expected =
    if peek l == expected then (true, record l { cursor = l.cursor + 1 }) else (false, l)

-- `while (test(peek(l))) advance(l);` with fuel.
unfoldable pub advance_while : ℕ → (ℕ → Bool) → Lexer → Lexer
advance_while zero test l = record l { cut_off = true }
advance_while (suc fuel) test l = elim (test (peek l)) [
  | true ↦ advance_while fuel test (advance l)
  | false ↦ l
]

-- One more round than there are bytes left.
abbrev pub fuel_of : Lexer → ℕ
fuel_of l = suc (length l.content - l.cursor)

abbrev pub skip_while : (ℕ → Bool) → Lexer → Lexer
skip_while test l = advance_while (fuel_of l) test l
