-- ===== src/Lexer/Next.antt =====
-- src/lexer.c, `lexer_next`.
pub mod Reports
pub mod Ending
use cact.Prelude.{
  ℕ, ◌-◌, String, Bool, true, false, ◌||◌, Option, none, some, leb, ◌==◌, if◌then◌else◌, length,
}
use cact.Context.{text, unexpected_character, Context}
use cact.Lexer.{Lexer, peek, advance_char, match_char}
use cact.Lexer.Scan.{Scanned, make_token, lexer_error_token, scan_identifier, scan_number}
use cact.Lexer.Trivia.{skip_whitespace}
use cact.Platform.{Platform}
use cact.Token.{
  TokenKind, eof, plus, minus, star, slash, percent, eq, neq, lt, le, gt, ge, l_paren, r_paren,
  l_brace, r_brace, l_bracket, r_bracket, assign, semicolon, comma, log_and, log_or, log_not,
}
use cact.Token.Value.{no_value}

-- The kinds of the characters that are a token by themselves.
abbrev pub single_char : ℕ → Option TokenKind
single_char c =
    if c == b'+'
    then some plus
    else if c == b'-'
    then some minus
    else if c == b'*'
    then some star
    else if c == b'%'
    then some percent
    else if c == b'('
    then some l_paren
    else if c == b')'
    then some r_paren
    else if c == b'{'
    then some l_brace
    else if c == b'}'
    then some r_brace
    else if c == b'['
    then some l_bracket
    else if c == b']'
    then some r_bracket
    else if c == b';'
    then some semicolon
    else if c == b','
    then some comma
    else if c == b'/'
    then some slash
    else none

-- The characters that `match(l, '=')` may extend: the longer kind and the shorter one.
abbrev pub before_equals : ℕ → Option (TokenKind × TokenKind)
before_equals c =
    if c == b'='
    then some (eq, assign)
    else if c == b'!'
    then some (neq, log_not)
    else if c == b'<'
    then some (le, lt)
    else if c == b'>'
    then some (ge, gt)
    else none

module _ ⦃env : Platform⦄ where
  abbrev pub ret_tok : Context → Lexer → ℕ → TokenKind → Scanned
  ret_tok ctx l start k = (make_token ctx l start k no_value, ctx, l)

  abbrev pub ret_longer : Context → ℕ → TokenKind × TokenKind → Bool × Lexer → Scanned
  ret_longer ctx start (long, short) (true, l) = ret_tok ctx l start long
  ret_longer ctx start (long, short) (false, l) = ret_tok ctx l start short

  abbrev pub ret_doubled : Context → ℕ → TokenKind → String → Bool × Lexer → Scanned
  ret_doubled ctx start k msg (true, l) = ret_tok ctx l start k
  ret_doubled ctx start k msg (false, l) = lexer_error_token ctx l (text msg) start

  -- The last cases of the `switch`, on the character `c` that was read.
  unfoldable pub scan_rest : Context → Lexer → ℕ → ℕ → Scanned
  scan_rest ctx l start c =
      if c == b'&'
      then ret_doubled ctx start log_and "Unexpected character '&' (Bitwise AND not supported)"
          (match_char l b'&')
      else if c == b'|'
      then ret_doubled ctx start log_or "Unexpected character '|' (Bitwise OR not supported)"
          (match_char l b'|')
      else lexer_error_token ctx l (unexpected_character c) start

  unfoldable pub scan_dot : Context → Lexer → ℕ → Scanned
  scan_dot ctx l start =
      if env.char_is_digit (peek l)
      then scan_number ctx (record l { cursor = l.cursor - 1 })
      else lexer_error_token ctx l (text "Unexpected character '.'") start

  unfoldable pub scan_operator : Context → Lexer → ℕ → ℕ → Scanned
  scan_operator ctx l start c = elim (before_equals c) [
    | some kinds ↦ ret_longer ctx start kinds (match_char l b'=')
    | none ↦ scan_rest ctx l start c
  ]

  -- The `switch`, behind the read of `c`.
  unfoldable pub scan_punct : Context → Lexer → ℕ → ℕ → Scanned
  scan_punct ctx l start c = if c == b'.' then scan_dot ctx l start else elim (single_char c) [
    | some k ↦ ret_tok ctx l start k
    | none ↦ scan_operator ctx l start c
  ]

  -- The token that begins at the cursor, which is before the end.
  unfoldable pub scan_token : Context → Lexer → ℕ × Lexer → Scanned
  scan_token ctx l₀ (c, l) =
      if env.char_is_alpha c || c == b'_'
      then scan_identifier ctx (record l { cursor = l.cursor - 1 })
      else if env.char_is_digit c
      then scan_number ctx (record l { cursor = l.cursor - 1 })
      else scan_punct ctx l l₀.cursor c

  unfoldable pub lexer_next : Context → Lexer → Scanned
  lexer_next ctx l₀ =
      let l = skip_whitespace l₀ in
      if leb (length l.content) l.cursor
      then ret_tok ctx l l.cursor eof
      else scan_token ctx l (advance_char l)
