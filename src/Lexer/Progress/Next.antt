-- ===== src/Lexer/Progress/Next.antt =====
-- src/lexer.c: the progress of `lexer_next`.
use cact.Prelude.{
  ℕ, ◌+◌, ◌-◌, String, ◌≡◌, refl, ap, ◌≢◌, inl, inr, Bool, true, false, ◌||◌, Option, none, some,
  arith, leb, ◌==◌, if◌then◌else◌, ==_iff, Bool-cases, length,
}
use cact.Context.{Context}
use cact.Lexer.{Lexer, peek, advance_char, match_char}
use cact.Lexer.Comments.{Ahead, Ahead-refl, Ahead-trans}
use cact.Lexer.Cursor.{advance_inside}
use cact.Lexer.Next.{
  single_char, before_equals, ret_tok, ret_longer, ret_doubled, scan_rest, scan_dot, scan_operator,
  scan_punct, scan_token, lexer_next,
}
use cact.Lexer.Progress.{
  Moved, Moved-Ahead, advance-Moved, match_char-Ahead, scan_decimal-digit, scan_decimal-dot,
  scan_number-Moved, scan_identifier-Moved,
}
use cact.Lexer.Scan.{Scanned, lexer_error_token, is_word}
use cact.Lexer.Skipping.{skip_whitespace-stops}
use cact.Lexer.Trivia.{skip_whitespace}
use cact.Platform.{Platform}
use cact.Platform.Laws.{CharLaws}
use cact.Token.{TokenKind, eof, log_and, log_or}

-- A token was read from `l`: the cursor did not go back, and went on unless the token is the end.
abbrev pub Advances : ⦃env : Platform⦄ → Lexer → Scanned → Type 0
Advances l (tok, ctx, r) = Ahead l r × (tok.kind ≢ eof → Moved l r)

module _ ⦃env : Platform⦄ where
  abbrev Takes : Lexer → Scanned → Type 0
  Takes l (tok, ctx, r) = Moved l r

  Takes-Advances : (l : Lexer) (r : Scanned) → Takes l r → Advances l r
  Takes-Advances l (tok, ctx, r) m = (m.ahead, λ _. m)

  longer-Takes :
      (ctx : Context) (start : ℕ) (l : Lexer) (kinds : TokenKind × TokenKind) (r : Bool × Lexer)
      → Moved l r.1
      → Takes l (ret_longer ctx start kinds r)
  longer-Takes ctx start l (long, short) (true, r) h = h
  longer-Takes ctx start l (long, short) (false, r) h = h

  doubled-Takes :
      (ctx : Context) (start : ℕ) (l : Lexer) (k : TokenKind) (msg : String) (r : Bool × Lexer)
      → Moved l r.1
      → Takes l (ret_doubled ctx start k msg r)
  unfolding lexer_error_token
  doubled-Takes ctx start l k msg (true, r) h = h
  doubled-Takes ctx start l k msg (false, r) h = h

  module _ (ctx : Context) (l₀ l : Lexer) (m : Moved l₀ l) where
    matched : (c : ℕ) → (c == 0) ≡ false → Moved l₀ ((match_char l c).1)
    matched c n = Moved-Ahead l₀ l _ m (match_char-Ahead l c n)

    rest-Takes : (start c : ℕ) → Takes l₀ (scan_rest ctx l start c)
    unfolding scan_rest lexer_error_token
    rest-Takes start c = elim (Bool-cases (c == b'&')) [
      | inl e ↦ rw e (
          doubled-Takes ctx start l₀ log_and "Unexpected character '&' (Bitwise AND not supported)"
            (match_char l b'&') (matched b'&' refl))
      | inr e ↦ rw e (elim (Bool-cases (c == b'|')) [
        | inl e' ↦ rw e' (
            doubled-Takes ctx start l₀ log_or "Unexpected character '|' (Bitwise OR not supported)"
              (match_char l b'|') (matched b'|' refl))
        | inr e' ↦ rw e' m
      ])
    ]

    operator-Takes : (start c : ℕ) → Takes l₀ (scan_operator ctx l start c)
    unfolding scan_operator
    operator-Takes start c = go (before_equals c)
      where
        go :
            (o : Option (TokenKind × TokenKind))
            → Takes l₀ (elim o [
              | some kinds ↦ ret_longer ctx start kinds (match_char l b'=')
              | none ↦ scan_rest ctx l start c
            ])
        go (some kinds) = longer-Takes ctx start l₀ kinds (match_char l b'=') (matched b'=' refl)
        go none = rest-Takes start c

    single-Takes :
        (start c : ℕ) (o : Option TokenKind)
        → Takes l₀ (elim o [ some k ↦ ret_tok ctx l start k | none ↦ scan_operator ctx l start c ])
    single-Takes start c (some k) = m
    single-Takes start c none = operator-Takes start c

  Ahead-Moved : (l m r : Lexer) → Ahead l m → Moved m r → Moved l r
  Ahead-Moved l m r h k = record {
    ahead = Ahead-trans l m r h k.ahead;
    further = omega (arith, h.onward, k.further);
    began = omega (arith, h.onward, k.began, ap length h.same_bytes);
  }

  Advances-after : (l m : Lexer) (r : Scanned) → Ahead l m → Advances m r → Advances l r
  Advances-after l m (tok, ctx, r) h (a, f) =
      (Ahead-trans l m r h a, λ n. Ahead-Moved l m r h (f n))

  -- The lexer behind the byte at the cursor of `l`.
  abbrev behind : Lexer → Lexer
  behind l = record l { cursor = l.cursor + 1 }

  add-sub-one : (n : ℕ) → n + 1 - 1 ≡ n
  add-sub-one n = omega arith

  dot-Takes :
      (laws : CharLaws env) (ctx : Context) (l : Lexer) (start : ℕ)
      → leb (length l.content) l.cursor ≡ false
      → peek l ≡ b'.'
      → Moved l (behind l)
      → Takes l (scan_dot ctx (behind l) start)
  unfolding scan_dot lexer_error_token
  dot-Takes laws ctx l start inside dot m =
      elim (Bool-cases (env.char_is_digit (peek (behind l)))) [
        | inl e ↦
            rw (e, add-sub-one l.cursor)
              (scan_number-Moved laws ctx l inside (elim (Bool-cases (env.char_is_digit (peek l))) [
                | inl d ↦ scan_decimal-digit laws l d inside
                | inr d ↦ scan_decimal-dot laws l dot inside d
              ]))
        | inr e ↦ rw e m
      ]

  module _ (laws : CharLaws env) where
    word : (c : ℕ) → (env.char_is_alpha c || c == b'_') ≡ true → is_word c ≡ true
    word c h = elim (Bool-cases (env.char_is_alpha c)) [
      | inl e ↦ rw (laws.alpha_alphanum c e) refl
      | inr e ↦ elim (Bool-cases (env.char_is_alphanum c)) [
        | inl k ↦ rw k refl
        | inr k ↦ rw k (rw e at h)
      ]
    ]

    token-Takes :
        (ctx : Context) (l : Lexer)
        → leb (length l.content) l.cursor ≡ false
        → Moved l (behind l)
        → Takes l (scan_token ctx l (peek l, behind l))
    unfolding scan_token scan_punct
    token-Takes ctx l inside m = elim (Bool-cases (env.char_is_alpha (peek l) || peek l == b'_')) [
      | inl e ↦
          rw (e, add-sub-one l.cursor) (scan_identifier-Moved laws ctx l (word (peek l) e) inside)
      | inr e ↦ rw e (elim (Bool-cases (env.char_is_digit (peek l))) [
        | inl d ↦
            rw (d, add-sub-one l.cursor)
              (scan_number-Moved laws ctx l inside (scan_decimal-digit laws l d inside))
        | inr d ↦ rw d (elim (Bool-cases (peek l == b'.')) [
          | inl dot ↦ rw dot (dot-Takes laws ctx l l.cursor inside ((==_iff (peek l) b'.').0 dot) m)
          | inr dot ↦
              rw dot (single-Takes ctx l (behind l) m l.cursor (peek l) (single_char (peek l)))
        ])
      ])
    ]

    from_here :
        (ctx : Context) (l : Lexer)
        → Advances l (
            if leb (length l.content) l.cursor
            then ret_tok ctx l l.cursor eof
            else scan_token ctx l (advance_char l))
    unfolding advance_char
    from_here ctx l = elim (Bool-cases (leb (length l.content) l.cursor)) [
      | inl e ↦ rw e (Ahead-refl l, λ n. absurd (n refl))
      | inr e ↦
          rw (e, advance_inside l e)
            (Takes-Advances l (scan_token ctx l (peek l, behind l))
              (token-Takes ctx l e (rw (advance_inside l e) at (advance-Moved l e))))
    ]

    -- Where letters count as alphanumeric and the byte 0 is in no class, `lexer_next` stays in its file, never moves the cursor
    -- back, nor from inside the file past its end, and takes a byte at least, from inside the file,
    -- for every token but the end.
    pub lexer_next-Advances : (ctx : Context) (l : Lexer) → Advances l (lexer_next ctx l)
    unfolding lexer_next
    lexer_next-Advances ctx l₀ =
        let l = skip_whitespace l₀ in
        Advances-after l₀ l
          (if leb (length l.content) l.cursor
            then ret_tok ctx l l.cursor eof
            else scan_token ctx l (advance_char l))
          (skip_whitespace-stops l₀).0 (from_here ctx l)
