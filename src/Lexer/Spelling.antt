-- ===== src/Lexer/Spelling.antt =====
-- The texts of operators and punctuation, read back by `lexer_next`.
use cact.Prelude.{
  ℕ, ◌≡◌, refl, inl, inr, Bool, true, false, ◌||◌, none, some, ◌∷◌, ◌++◌, leb, ◌==◌, Bool-cases,
  length, Bytes,
}
use cact.Context.{Context}
use cact.Lexer.{Lexer, advance_char, match_char}
use cact.Lexer.Next.{single_char, before_equals, scan_rest, scan_operator, scan_punct, scan_token}
use cact.Lexer.Rest.{
  Rest, head_or_end, behind, Rest-inside, Rest-behind, peek-Rest, peek_next-Rest, advance-Rest,
}
use cact.Lexer.Scan.{Scanned}
use cact.Lexer.Trivia.{is_blank, stop, skip_round}
use cact.Platform.{Platform}
use cact.Platform.Laws.{is_letter, is_decimal, AsciiLaws}
use cact.Token.{
  TokenKind, plus, minus, star, slash, percent, eq, neq, lt, le, gt, ge, l_paren, r_paren, l_brace,
  r_brace, l_bracket, r_bracket, assign, semicolon, comma, log_and, log_or, log_not,
  tokenkind_index, tokenkind_to_cstr,
}

-- The kinds of the lines `PUNCT(ID, TEXT)`.
abbrev pub is_punct : TokenKind → Bool
is_punct k = leb 20 (tokenkind_index k)

-- What may follow: nothing that would make a longer token, and no comment.
pub record Follow (bs : Bytes) : Type 0 where
  pub no_equals : (head_or_end bs == b'=') ≡ false
  pub no_slash : (head_or_end bs == b'/') ≡ false
  pub no_star : (head_or_end bs == b'*') ≡ false

module _ ⦃env : Platform⦄ where
  -- The token has the kind, the context is as before, and `bs` are left.
  abbrev pub Gives : Context → TokenKind → Bytes → Scanned → Type 0
  Gives ctx k bs (tok, ctx', r) = (tok.kind ≡ k) × (ctx' ≡ ctx) × Rest r bs

  -- No blank and no comment begins at `l`, and the token that does is of the kind.
  abbrev pub Spelled : Context → TokenKind → Lexer → Bytes → Type 0
  Spelled ctx k l bs =
      (leb (length l.content) l.cursor ≡ false)
      × (skip_round l ≡ stop l)
      × Gives ctx k bs (scan_token ctx l (advance_char l))

  pub quiet :
      (c : ℕ) (l : Lexer) (bs : Bytes)
      → Rest l (c ∷ bs)
      → is_blank c ≡ false
      → (head_or_end bs == b'/') ≡ false
      → (head_or_end bs == b'*') ≡ false
      → skip_round l ≡ stop l
  unfolding skip_round
  quiet c l bs w blank no_slash no_star =
      rw (peek-Rest l (c ∷ bs) w, blank, peek_next-Rest l c bs w, no_slash, no_star)
        (elim (Bool-cases (c == b'/')) [ inl e ↦ rw e refl | inr e ↦ rw e refl ])

  module _ (laws : AsciiLaws env) (ctx : Context) (l : Lexer) (bs : Bytes) where
    at_punct :
        (c : ℕ)
        → (is_letter c || c == b'_') ≡ false
        → is_decimal c ≡ false
        → Rest l (c ∷ bs)
        → scan_token ctx l (advance_char l) ≡ scan_punct ctx (behind l) l.cursor c
    unfolding scan_token advance_char
    at_punct c letter digit w =
        rw
          (
            peek-Rest l (c ∷ bs) w,
            advance-Rest l c bs w,
            laws.alpha_letter c,
            letter,
            laws.digit_decimal c,
            digit,
          )
          refl

  module _ (laws : AsciiLaws env) (ctx : Context) (l : Lexer) (bs : Bytes) (f : Follow bs) where
    -- A byte that is a token.
    single :
        (c : ℕ) (k : TokenKind)
        → is_blank c ≡ false
        → (is_letter c || c == b'_') ≡ false
        → is_decimal c ≡ false
        → (c == b'.') ≡ false
        → single_char c ≡ some k
        → Rest l (c ∷ bs)
        → Spelled ctx k l bs
    unfolding scan_punct
    single c k blank letter digit dot e w = (
      Rest-inside l c bs w,
      quiet c l bs w blank f.no_slash f.no_star,
      rw (at_punct laws ctx l bs c letter digit w, dot, e) (refl, refl, Rest-behind l c bs w),
    )

    -- A byte that `=` would make another token of.
    shorter :
        (c : ℕ) (long short : TokenKind)
        → is_blank c ≡ false
        → (is_letter c || c == b'_') ≡ false
        → is_decimal c ≡ false
        → (c == b'.') ≡ false
        → single_char c ≡ none
        → before_equals c ≡ some (long, short)
        → Rest l (c ∷ bs)
        → Spelled ctx short l bs
    unfolding scan_punct scan_operator match_char
    shorter c long short blank letter digit dot e e' w =
        let w' = Rest-behind l c bs w in
        (
          Rest-inside l c bs w,
          quiet c l bs w blank f.no_slash f.no_star,
          rw
              (
                at_punct laws ctx l bs c letter digit w,
                dot,
                e,
                scan_operator,
                e',
                match_char,
                peek-Rest (behind l) bs w',
                f.no_equals,
              )
              (refl, refl, w'),
        )

    -- The byte with the `=`.
    longer :
        (c : ℕ) (long short : TokenKind)
        → is_blank c ≡ false
        → (is_letter c || c == b'_') ≡ false
        → is_decimal c ≡ false
        → (c == b'.') ≡ false
        → single_char c ≡ none
        → before_equals c ≡ some (long, short)
        → Rest l (c ∷ b'=' ∷ bs)
        → Spelled ctx long l bs
    unfolding scan_punct scan_operator match_char
    longer c long short blank letter digit dot e e' w =
        let w' = Rest-behind l c (b'=' ∷ bs) w in
        (
          Rest-inside l c (b'=' ∷ bs) w,
          quiet c l (b'=' ∷ bs) w blank refl refl,
          rw
              (
                at_punct laws ctx l (b'=' ∷ bs) c letter digit w,
                dot,
                e,
                scan_operator,
                e',
                match_char,
                peek-Rest (behind l) (b'=' ∷ bs) w',
              )
              (refl, refl, Rest-behind (behind l) b'=' bs w'),
        )

    both_ands : Rest l (b'&' ∷ b'&' ∷ bs) → Spelled ctx log_and l bs
    unfolding scan_punct scan_operator scan_rest match_char
    both_ands w =
        let w' = Rest-behind l b'&' (b'&' ∷ bs) w in
        (
          Rest-inside l b'&' (b'&' ∷ bs) w,
          quiet b'&' l (b'&' ∷ bs) w refl refl refl,
          rw (at_punct laws ctx l (b'&' ∷ bs) b'&' refl refl w, peek-Rest (behind l) (b'&' ∷ bs) w')
              (refl, refl, Rest-behind (behind l) b'&' bs w'),
        )

    both_ors : Rest l (b'|' ∷ b'|' ∷ bs) → Spelled ctx log_or l bs
    unfolding scan_punct scan_operator scan_rest match_char
    both_ors w =
        let w' = Rest-behind l b'|' (b'|' ∷ bs) w in
        (
          Rest-inside l b'|' (b'|' ∷ bs) w,
          quiet b'|' l (b'|' ∷ bs) w refl refl refl,
          rw (at_punct laws ctx l (b'|' ∷ bs) b'|' refl refl w, peek-Rest (behind l) (b'|' ∷ bs) w')
              (refl, refl, Rest-behind (behind l) b'|' bs w'),
        )

    -- Each of the texts of token.def.
    pub punct-Spelled :
        (k : TokenKind)
        → is_punct k ≡ true
        → Rest l (tokenkind_to_cstr k ++ bs)
        → Spelled ctx k l bs
    unfolding tokenkind_to_cstr
    punct-Spelled plus h = single b'+' plus refl refl refl refl refl
    punct-Spelled minus h = single b'-' minus refl refl refl refl refl
    punct-Spelled star h = single b'*' star refl refl refl refl refl
    punct-Spelled slash h = single b'/' slash refl refl refl refl refl
    punct-Spelled percent h = single b'%' percent refl refl refl refl refl
    punct-Spelled l_paren h = single b'(' l_paren refl refl refl refl refl
    punct-Spelled r_paren h = single b')' r_paren refl refl refl refl refl
    punct-Spelled l_brace h = single b'{' l_brace refl refl refl refl refl
    punct-Spelled r_brace h = single b'}' r_brace refl refl refl refl refl
    punct-Spelled l_bracket h = single b'[' l_bracket refl refl refl refl refl
    punct-Spelled r_bracket h = single b']' r_bracket refl refl refl refl refl
    punct-Spelled semicolon h = single b';' semicolon refl refl refl refl refl
    punct-Spelled comma h = single b',' comma refl refl refl refl refl
    punct-Spelled eq h = longer b'=' eq assign refl refl refl refl refl refl
    punct-Spelled assign h = shorter b'=' eq assign refl refl refl refl refl refl
    punct-Spelled neq h = longer b'!' neq log_not refl refl refl refl refl refl
    punct-Spelled log_not h = shorter b'!' neq log_not refl refl refl refl refl refl
    punct-Spelled le h = longer b'<' le lt refl refl refl refl refl refl
    punct-Spelled lt h = shorter b'<' le lt refl refl refl refl refl refl
    punct-Spelled ge h = longer b'>' ge gt refl refl refl refl refl refl
    punct-Spelled gt h = shorter b'>' ge gt refl refl refl refl refl refl
    punct-Spelled log_and h = both_ands
    punct-Spelled log_or h = both_ors
    punct-Spelled _ h = cc
