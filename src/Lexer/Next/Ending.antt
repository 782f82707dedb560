-- ===== src/Lexer/Next/Ending.antt =====
-- Where `lexer_next` gives the token for the end of the file.
use cact.Prelude.{
  ℕ, ◌-◌, String, ◌≡◌, refl, inl, inr, Bool, true, false, ◌||◌, Option, none, some, leb, ◌==◌,
  if◌then◌else◌, Bool-cases, length,
}
use cact.Context.{Message, text, unexpected_character, Context}
use cact.Lexer.{Lexer, peek, advance_char, match_char, skip_while}
use cact.Lexer.Next.{
  single_char, before_equals, ret_tok, ret_longer, ret_doubled, scan_rest, scan_dot, scan_operator,
  scan_punct, scan_token, lexer_next,
}
use cact.Lexer.Scan.{
  Scanned, lexer_error_token, is_word, lexeme, word_token, scan_identifier, Digits, scanned,
  refused, scan_digits, literal_token, finish_number, scan_number,
}
use cact.Lexer.Trivia.{skip_whitespace}
use cact.Platform.{Platform}
use cact.Token.{TokenKind, eof, log_and, log_or, same_kind}

abbrev pub is_end : TokenKind → Bool
is_end k = same_kind k eof

-- Of a kind, if there is one.
abbrev pub SomeNotEnd : Option TokenKind → Type 0
SomeNotEnd none = Unit
SomeNotEnd (some k) = is_end k ≡ false

abbrev BothNotEnd : Option (TokenKind × TokenKind) → Type 0
BothNotEnd none = Unit
BothNotEnd (some (long, short)) = (is_end long ≡ false) × (is_end short ≡ false)

pub pick :
    (b : Bool) (k : TokenKind) (o : Option TokenKind)
    → is_end k ≡ false
    → SomeNotEnd o
    → SomeNotEnd (if b then some k else o)
pick true k o h rest = h
pick false k o h rest = rest

pick_both :
    (b : Bool) (long short : TokenKind) (o : Option (TokenKind × TokenKind))
    → is_end long ≡ false
    → is_end short ≡ false
    → BothNotEnd o
    → BothNotEnd (if b then some (long, short) else o)
pick_both true long short o h k rest = (h, k)
pick_both false long short o h k rest = rest

single_char-SomeNotEnd : (c : ℕ) → SomeNotEnd (single_char c)
single_char-SomeNotEnd c = pick (c == b'+') _ _ refl (
    pick (c == b'-') _ _ refl (
      pick (c == b'*') _ _ refl (
        pick (c == b'%') _ _ refl (
          pick (c == b'(') _ _ refl (
            pick (c == b')') _ _ refl (
              pick (c == b'{') _ _ refl (
                pick (c == b'}') _ _ refl (
                  pick (c == b'[') _ _ refl (
                    pick (c == b']') _ _ refl (
                      pick (c == b';') _ _ refl
                        (pick (c == b',') _ _ refl (pick (c == b'/') _ _ refl tt))))))))))))

before_equals-BothNotEnd : (c : ℕ) → BothNotEnd (before_equals c)
before_equals-BothNotEnd c = pick_both (c == b'=') _ _ _ refl refl (
    pick_both (c == b'!') _ _ _ refl refl
      (pick_both (c == b'<') _ _ _ refl refl (pick_both (c == b'>') _ _ _ refl refl tt)))

module _ ⦃env : Platform⦄ where
  -- The table of keywords has none for the end of the file.
  abbrev pub NoEndWord : Context → Type 0
  NoEndWord ctx = (x : ℕ) → SomeNotEnd (env.map_get TokenKind ctx.kw_map x)

  abbrev NotEnd : Scanned → Type 0
  NotEnd r = is_end r.0.kind ≡ false

  module _ (ctx : Context) (words : NoEndWord ctx) where
    error-NotEnd :
        (l : Lexer) (msg : Message) (start : ℕ) → NotEnd (lexer_error_token ctx l msg start)
    unfolding lexer_error_token
    error-NotEnd l msg start = refl

    identifier-NotEnd : (l : Lexer) → NotEnd (scan_identifier ctx l)
    unfolding scan_identifier
    identifier-NotEnd l =
        let l' = skip_while is_word l in
        let x = (env.intern ctx.itn (lexeme l' l.cursor)).1 in
        go l' x (env.map_get TokenKind ctx.kw_map x) (words x)
      where
        go :
            (l' : Lexer) (x : ℕ) (o : Option TokenKind)
            → SomeNotEnd o
            → is_end (word_token ctx l' l.cursor x o).kind ≡ false
        go l' x none h = refl
        go l' x (some k) h = h

    literal-NotEnd :
        (l : Lexer) (start : ℕ) (real is_float_32 : Bool)
        → is_end (literal_token ctx l start real is_float_32).kind ≡ false
    unfolding literal_token
    literal-NotEnd l start true true = refl
    literal-NotEnd l start true false = refl
    literal-NotEnd l start false b = refl

    digits-NotEnd : (start : ℕ) (d : Digits) → NotEnd (finish_number ctx start d)
    unfolding finish_number
    digits-NotEnd start (refused msg l) = error-NotEnd l (text msg) start
    digits-NotEnd start (scanned real is_float_32 l) =
        elim (Bool-cases (leb 128 (l.cursor - start))) [
          | inl e ↦ rw e (error-NotEnd l (text "Number literal too long") start)
          | inr e ↦ rw e (literal-NotEnd l start real is_float_32)
        ]

    number-NotEnd : (l : Lexer) → NotEnd (scan_number ctx l)
    unfolding scan_number
    number-NotEnd l = digits-NotEnd l.cursor (scan_digits l)

    longer-NotEnd :
        (start : ℕ) (kinds : TokenKind × TokenKind) (m : Bool × Lexer)
        → BothNotEnd (some kinds)
        → NotEnd (ret_longer ctx start kinds m)
    longer-NotEnd start (long, short) (true, l) (h, k) = h
    longer-NotEnd start (long, short) (false, l) (h, k) = k

    doubled-NotEnd :
        (start : ℕ) (k : TokenKind) (msg : String) (m : Bool × Lexer)
        → is_end k ≡ false
        → NotEnd (ret_doubled ctx start k msg m)
    doubled-NotEnd start k msg (true, l) h = h
    doubled-NotEnd start k msg (false, l) h = error-NotEnd l (text msg) start

    rest-NotEnd : (l : Lexer) (start c : ℕ) → NotEnd (scan_rest ctx l start c)
    unfolding scan_rest
    rest-NotEnd l start c = elim (Bool-cases (c == b'&')) [
      | inl e ↦ rw e (doubled-NotEnd start log_and _ (match_char l b'&') refl)
      | inr e ↦ rw e (elim (Bool-cases (c == b'|')) [
        | inl e' ↦ rw e' (doubled-NotEnd start log_or _ (match_char l b'|') refl)
        | inr e' ↦ rw e' (error-NotEnd l (unexpected_character c) start)
      ])
    ]

    dot-NotEnd : (l : Lexer) (start : ℕ) → NotEnd (scan_dot ctx l start)
    unfolding scan_dot
    dot-NotEnd l start = elim (Bool-cases (env.char_is_digit (peek l))) [
      | inl e ↦ rw e (number-NotEnd _)
      | inr e ↦ rw e (error-NotEnd l (text "Unexpected character '.'") start)
    ]

    operator-NotEnd : (l : Lexer) (start c : ℕ) → NotEnd (scan_operator ctx l start c)
    unfolding scan_operator
    operator-NotEnd l start c = go (before_equals c) (before_equals-BothNotEnd c)
      where
        go :
            (o : Option (TokenKind × TokenKind))
            → BothNotEnd o
            → NotEnd (elim o as (λ _. Scanned) [
              | some kinds ↦ ret_longer ctx start kinds (match_char l b'=')
              | none ↦ scan_rest ctx l start c
            ])
        go (some kinds) h = longer-NotEnd start kinds (match_char l b'=') h
        go none h = rest-NotEnd l start c

    punct-NotEnd : (l : Lexer) (start c : ℕ) → NotEnd (scan_punct ctx l start c)
    unfolding scan_punct
    punct-NotEnd l start c = elim (Bool-cases (c == b'.')) [
      | inl e ↦ rw e (dot-NotEnd l start)
      | inr e ↦ rw e (go (single_char c) (single_char-SomeNotEnd c))
    ]
      where
        go :
            (o : Option TokenKind)
            → SomeNotEnd o
            → NotEnd (elim o as (λ _. Scanned) [
              | some k ↦ ret_tok ctx l start k
              | none ↦ scan_operator ctx l start c
            ])
        go (some k) h = h
        go none h = operator-NotEnd l start c

    token-NotEnd : (l₀ : Lexer) (r : ℕ × Lexer) → NotEnd (scan_token ctx l₀ r)
    unfolding scan_token
    token-NotEnd l₀ (c, l) = elim (Bool-cases (env.char_is_alpha c || c == b'_')) [
      | inl e ↦ rw e (identifier-NotEnd _)
      | inr e ↦ rw e (elim (Bool-cases (env.char_is_digit c)) [
        | inl e' ↦ rw e' (number-NotEnd _)
        | inr e' ↦ rw e' (punct-NotEnd l l₀.cursor c)
      ])
    ]

  -- The cursor is at the end of the file, or past it.
  abbrev pub AtEnd : Lexer → Type 0
  AtEnd l = leb (length l.content) l.cursor ≡ true

  -- If no keyword stands for the end of the file, its token is given at the end only.
  pub lexer_next-AtEnd :
      (ctx : Context) (l : Lexer)
      → NoEndWord ctx
      → same_kind (lexer_next ctx l).0.kind eof ≡ true
      → AtEnd (lexer_next ctx l).2
  unfolding lexer_next
  lexer_next-AtEnd ctx l₀ words is_eof =
      let l = skip_whitespace l₀ in
      elim (Bool-cases (leb (length l.content) l.cursor)) [
        | inl e ↦ rw e e
        | inr e ↦
            let not_end = token-NotEnd ctx words l (advance_char l) in
            let end : is_end (scan_token ctx l (advance_char l)).0.kind ≡ true = rw e at is_eof in
            cc (end, not_end)
      ]
