-- ===== src/Lexer/Next/Reports.antt =====
-- What the lexer does to the context: it reports, and it interns names.
use cact.Prelude.{
  ℕ, ◌-◌, String, inl, inr, Bool, true, false, ◌||◌, Option, none, some, leb, ◌==◌, Bool-cases,
  length,
}
use cact.Context.{Message, text, unexpected_character, Context, ctx_error}
use cact.Lexer.{Lexer, peek, advance_char, match_char}
use cact.Lexer.Next.{
  single_char, before_equals, ret_tok, ret_longer, ret_doubled, scan_rest, scan_dot, scan_operator,
  scan_punct, scan_token, lexer_next,
}
use cact.Lexer.Scan.{
  Scanned, lexer_error_token, scan_identifier, Digits, scanned, refused, scan_digits, finish_number,
  scan_number,
}
use cact.Lexer.Trivia.{skip_whitespace}
use cact.Platform.{Platform}
use cact.Token.{TokenKind, log_and, log_or}

module _ ⦃env : Platform⦄ {P : Context → Type 0}
    (errors : (ctx : Context) (tok : Option ℕ) (msg : Message) → P ctx → P (ctx_error ctx tok msg))
    (names : (ctx : Context) (itn : env.Interner) → P ctx → P (record ctx { itn = itn })) where
  module _ (ctx : Context) (h : P ctx) where
    after_error : (l : Lexer) (msg : Message) (start : ℕ) → P (lexer_error_token ctx l msg start).1
    unfolding lexer_error_token
    after_error l msg start = errors ctx _ msg h

    after_identifier : (l : Lexer) → P (scan_identifier ctx l).1
    unfolding scan_identifier
    after_identifier l = names ctx _ h

    after_digits : (start : ℕ) (d : Digits) → P (finish_number ctx start d).1
    unfolding finish_number
    after_digits start (refused msg l) = after_error l (text msg) start
    after_digits start (scanned real is_float_32 l) =
        elim (Bool-cases (leb 128 (l.cursor - start))) [
          | inl e ↦ rw e (after_error l (text "Number literal too long") start)
          | inr e ↦ rw e h
        ]

    after_number : (l : Lexer) → P (scan_number ctx l).1
    unfolding scan_number
    after_number l = after_digits l.cursor (scan_digits l)

    after_longer :
        (start : ℕ) (kinds : TokenKind × TokenKind) (m : Bool × Lexer)
        → P (ret_longer ctx start kinds m).1
    after_longer start kinds (true, l) = h
    after_longer start kinds (false, l) = h

    after_doubled :
        (start : ℕ) (k : TokenKind) (msg : String) (m : Bool × Lexer)
        → P (ret_doubled ctx start k msg m).1
    after_doubled start k msg (true, l) = h
    after_doubled start k msg (false, l) = after_error l (text msg) start

    after_rest : (l : Lexer) (start c : ℕ) → P (scan_rest ctx l start c).1
    unfolding scan_rest
    after_rest l start c = elim (Bool-cases (c == b'&')) [
      | inl e ↦ rw e (after_doubled start log_and _ (match_char l b'&'))
      | inr e ↦ rw e (elim (Bool-cases (c == b'|')) [
        | inl e' ↦ rw e' (after_doubled start log_or _ (match_char l b'|'))
        | inr e' ↦ rw e' (after_error l (unexpected_character c) start)
      ])
    ]

    after_dot : (l : Lexer) (start : ℕ) → P (scan_dot ctx l start).1
    unfolding scan_dot
    after_dot l start = elim (Bool-cases (env.char_is_digit (peek l))) [
      | inl e ↦ rw e (after_number _)
      | inr e ↦ rw e (after_error l (text "Unexpected character '.'") start)
    ]

    after_operator : (l : Lexer) (start c : ℕ) → P (scan_operator ctx l start c).1
    unfolding scan_operator
    after_operator l start c = go (before_equals c)
      where
        go :
            (o : Option (TokenKind × TokenKind))
            → P
                (elim o as (λ _. Scanned) [
                  | some kinds ↦ ret_longer ctx start kinds (match_char l b'=')
                  | none ↦ scan_rest ctx l start c
                ]).1
        go (some kinds) = after_longer start kinds (match_char l b'=')
        go none = after_rest l start c

    after_punct : (l : Lexer) (start c : ℕ) → P (scan_punct ctx l start c).1
    unfolding scan_punct
    after_punct l start c = elim (Bool-cases (c == b'.')) [
      | inl e ↦ rw e (after_dot l start)
      | inr e ↦ rw e (go (single_char c))
    ]
      where
        go :
            (o : Option TokenKind)
            → P
                (elim o as (λ _. Scanned) [
                  | some k ↦ ret_tok ctx l start k
                  | none ↦ scan_operator ctx l start c
                ]).1
        go (some k) = h
        go none = after_operator l start c

    after_token : (l₀ : Lexer) (r : ℕ × Lexer) → P (scan_token ctx l₀ r).1
    unfolding scan_token
    after_token l₀ (c, l) = elim (Bool-cases (env.char_is_alpha c || c == b'_')) [
      | inl e ↦ rw e (after_identifier _)
      | inr e ↦ rw e (elim (Bool-cases (env.char_is_digit c)) [
        | inl e' ↦ rw e' (after_number _)
        | inr e' ↦ rw e' (after_punct l l₀.cursor c)
      ])
    ]

    -- A property that reports and interned names keep holds of the context behind a token.
    pub lexer_next-context : (l : Lexer) → P (lexer_next ctx l).1
    unfolding lexer_next
    lexer_next-context l₀ =
        let l = skip_whitespace l₀ in
        elim (Bool-cases (leb (length l.content) l.cursor)) [
          | inl e ↦ rw e h
          | inr e ↦ rw e (after_token l (advance_char l))
        ]
