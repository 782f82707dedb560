-- ===== src/Lexer/Trivia.antt =====
-- src/lexer.c, `skip_whitespace`: blanks and comments.
use cact.Prelude.{ℕ, zero, suc, Bool, true, not, ◌&&◌, ◌||◌, ◌==◌, if◌then◌else◌}
use cact.Lexer.{Lexer, peek, peek_next, advance, fuel_of, skip_while}

abbrev pub is_blank : ℕ → Bool
is_blank c = c == b' ' || c == b'\r' || c == b'\t' || c == b'\n' || c == 0x0b || c == 0x0c

-- How a round of a loop ends: by its end, or by a `return` or a `break`.
pub data Flow : Type 0 where
  again : Lexer → Flow
  stop : Lexer → Flow

-- The loop of a block comment behind its `/*`. It stops at a byte 0, and goes on behind a `*/`.
unfoldable pub block_comment : ℕ → Lexer → Flow
block_comment zero l = stop (record l { cut_off = true })
block_comment (suc fuel) l =
    let rest = block_comment fuel (advance l) in
    if peek l == 0
    then stop l
    else if peek l == b'*' && peek_next l == b'/'
    then again (advance (advance l))
    else rest

-- One round of the outer loop.
unfoldable pub skip_round : Lexer → Flow
skip_round l =
    if is_blank (peek l)
    then again (advance l)
    else if peek l == b'/'
    then (if peek_next l == b'/'
        then again (skip_while (λ c. not (c == b'\n') && not (c == 0)) l)
        else if peek_next l == b'*'
        then block_comment (fuel_of l) (advance (advance l))
        else stop l)
    else stop l

unfoldable pub skip_rounds : ℕ → Lexer → Lexer
skip_rounds zero l = record l { cut_off = true }
skip_rounds (suc fuel) l = elim (skip_round l) [ again l' ↦ skip_rounds fuel l' | stop l' ↦ l' ]

unfoldable pub skip_whitespace : Lexer → Lexer
skip_whitespace l = skip_rounds (fuel_of l) l
