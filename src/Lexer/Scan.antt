-- ===== src/Lexer/Scan.antt =====
-- src/lexer.c: the scanners and `lexer_next`. Each takes the context and the lexer, and returns
-- the token with both.
use cact.Prelude.{
  ℕ, ◌+◌, ◌-◌, ◌%◌, ◌^◌, String, Bool, true, false, not, ◌&&◌, ◌||◌, Option, none, some, leb, ◌==◌,
  if◌then◌else◌, take, drop, Bytes,
}
use cact.Context.{Message, text, Context, ctx_error}
use cact.Lexer.{Lexer, peek, peek_next, advance, skip_while}
use cact.Platform.{Platform}
use cact.Token.{TokenKind, error, ident, lit_int, lit_float, lit_double}
use cact.Token.Value.{Value, no_value, as_name, as_int, as_float, as_double, Token}

module _ ⦃env : Platform⦄ where
  abbrev pub Scanned : Type 0
  Scanned = Token × Context × Lexer

  -- `file->base_offset`; a file that is not found is a null pointer, which `lexer_init` rules out.
  abbrev pub base_of : Context → Lexer → ℕ
  base_of ctx l = elim (env.srcmanager_get_file ctx.mgr l.file_id) [
    | none ↦ 0
    | some file ↦ file.base_offset
  ]

  -- A token from `start` to the cursor.
  abbrev pub make_token : Context → Lexer → ℕ → TokenKind → Value → Token
  make_token ctx l start k v = record {
    kind = k;
    span_start = base_of ctx l + start;
    span_end = base_of ctx l + l.cursor;
    value = v;
  }

  -- The value of an error token is not written; nothing reads it.
  unfoldable pub lexer_error_token : Context → Lexer → Message → ℕ → Scanned
  lexer_error_token ctx l msg start =
      let err_tok = make_token ctx l start error no_value in
      (err_tok, ctx_error ctx (some err_tok.span_start) msg, l)

  abbrev pub is_word : ℕ → Bool
  is_word c = env.char_is_alphanum c || c == b'_'

  -- The bytes from `start` to the cursor.
  abbrev pub lexeme : Lexer → ℕ → Bytes
  lexeme l start = take (l.cursor - start) (drop start l.content)

  -- `map_get` gives the kind of a keyword; any other name is an identifier.
  abbrev pub word_token : Context → Lexer → ℕ → ℕ → Option TokenKind → Token
  word_token ctx l start symbol none = make_token ctx l start ident (as_name symbol)
  word_token ctx l start symbol (some kind) = make_token ctx l start kind no_value

  unfoldable pub scan_identifier : Context → Lexer → Scanned
  scan_identifier ctx l =
      let l' = skip_while is_word l in
      let (itn, symbol) = env.intern ctx.itn (lexeme l' l.cursor) in
      (
        word_token ctx l' l.cursor symbol (env.map_get TokenKind ctx.kw_map symbol),
        record ctx { itn = itn },
        l',
      )

  -- What the first part of `scan_number` leaves: the flags and the lexer, or a message.
  pub data Digits : Type 0 where
    scanned : Bool → Bool → Lexer → Digits
    refused : String → Lexer → Digits

  -- The suffix: the flags are `has_dot || has_exponent` and `is_float_32`.
  unfoldable pub scan_suffix : Bool → Lexer → Digits
  scan_suffix real l =
      if peek l == b'f' || peek l == b'F'
      then (if not real
          then refused "Invalid suffix 'f' on integer constant" l
          else scanned real true (advance l))
      else scanned real false l

  unfoldable pub scan_exponent : Bool → Lexer → Digits
  scan_exponent has_dot l =
      if peek l == b'e' || peek l == b'E'
      then (let l₁ = advance l in
          let l₂ = if peek l₁ == b'+' || peek l₁ == b'-' then advance l₁ else l₁ in
          if not (env.char_is_digit (peek l₂))
          then refused "Exponent has no digits" l₂
          else scan_suffix true (skip_while env.char_is_digit l₂))
      else scan_suffix has_dot l

  unfoldable pub scan_decimal : Lexer → Digits
  scan_decimal l =
      let l₁ = skip_while env.char_is_digit l in
      if peek l₁ == b'.'
      then scan_exponent true (skip_while env.char_is_digit (advance l₁))
      else scan_exponent false l₁

  unfoldable pub scan_hex : Lexer → Digits
  scan_hex l =
      if not (env.char_is_hex (peek l))
      then refused "Hex literal must have at least one digit" l
      else scanned false false (skip_while env.char_is_hex l)

  unfoldable pub scan_digits : Lexer → Digits
  scan_digits l =
      if peek l == b'0' && (peek_next l == b'x' || peek_next l == b'X')
      then scan_hex (advance (advance l))
      else scan_decimal l

  -- `(int)strtoll(buf, NULL, 0)` keeps 32 bits.
  unfoldable pub literal_token : Context → Lexer → ℕ → Bool → Bool → Token
  literal_token ctx l start real is_float_32 =
      let buf = lexeme l start in
      if real
      then (if is_float_32
          then make_token ctx l start lit_float (as_float (env.strtof buf))
          else make_token ctx l start lit_double (as_double (env.strtod buf)))
      else make_token ctx l start lit_int (as_int (env.strtoll buf % 2 ^ 32))

  -- The copy into `char buf[128]` and the conversions.
  unfoldable pub finish_number : Context → ℕ → Digits → Scanned
  finish_number ctx start (refused msg l) = lexer_error_token ctx l (text msg) start
  finish_number ctx start (scanned real is_float_32 l) =
      if leb 128 (l.cursor - start)
      then lexer_error_token ctx l (text "Number literal too long") start
      else (literal_token ctx l start real is_float_32, ctx, l)

  unfoldable pub scan_number : Context → Lexer → Scanned
  scan_number ctx l = finish_number ctx l.cursor (scan_digits l)
