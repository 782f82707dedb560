-- ===== src/Lexer/Printing.antt =====
-- A text of keywords, operators and punctuation is read back as it was printed.
use cact.Prelude.{
  ℕ, zero, suc, ◌-◌, ◌<◌, ◌≡◌, refl, inl, inr, Bool, true, false, ◌&&◌, List, [], ◌∷◌, ◌++◌, arith,
  leb, ◌==◌, leb→lt, Bool-cases, and_true, length, Bytes, codes,
}
use cact.Context.{Context}
use cact.Context.Keywords.{Knows, KnowsAll, KnowsAll-kept}
use cact.Lexer.{Lexer, advance_char, fuel_of}
use cact.Lexer.Next.{scan_token, lexer_next}
use cact.Lexer.Rest.{Rest, behind, Rest-inside, Rest-ended, Rest-behind, peek-Rest, advance-Rest}
use cact.Lexer.Scan.{Scanned}
use cact.Lexer.Spelling.{is_punct, Follow, quiet, punct-Spelled}
use cact.Lexer.Trivia.{is_blank, again, stop, skip_round, skip_rounds, skip_whitespace}
use cact.Lexer.Words.{all_pass, WordEnds, scan_identifier-keyword, at_letter}
use cact.Platform.{Platform}
use cact.Platform.Laws.{MapLaws, is_letter, AsciiLaws, InternLaws}
use cact.Token.{
  TokenKind, eof, kw_const, kw_int, kw_bool, kw_float, kw_double, kw_void, kw_if, kw_else, kw_while,
  kw_break, kw_continue, kw_return, kw_true, kw_false, tokenkind_index, tokenkind_to_cstr, keywords,
}

-- The texts of the kinds, with a blank in front of each.
abbrev pub print : List TokenKind → Bytes
print [] = []
print (k ∷ ks) = b' ' ∷ (tokenkind_to_cstr k ++ print ks)

-- The kinds of the lines `KW(ID, TEXT)` and `PUNCT(ID, TEXT)`.
abbrev pub has_text : TokenKind → Bool
has_text k = leb 6 (tokenkind_index k)

abbrev pub all_texts : List TokenKind → Bool
all_texts [] = true
all_texts (k ∷ ks) = has_text k && all_texts ks

print-Follow : (ks : List TokenKind) → Follow (print ks)
print-Follow [] = record { no_equals = refl; no_slash = refl; no_star = refl }
print-Follow (k ∷ ks) = record { no_equals = refl; no_slash = refl; no_star = refl }

stopped : (fuel : ℕ) (l : Lexer) → 0 < fuel → skip_round l ≡ stop l → skip_rounds fuel l ≡ l
unfolding skip_rounds
stopped zero l room e = absurd (omega (arith, room))
stopped (suc fuel) l room e = rw (skip_rounds, e) refl

blank_round : (l : Lexer) (bs : Bytes) → Rest l (b' ' ∷ bs) → skip_round l ≡ again (behind l)
unfolding skip_round
blank_round l bs w = rw (peek-Rest l (b' ' ∷ bs) w, advance-Rest l b' ' bs w) refl

end_round : (l : Lexer) → Rest l [] → skip_round l ≡ stop l
unfolding skip_round
end_round l w = rw (peek-Rest l [] w) refl

over_blank :
    (l : Lexer) (bs : Bytes)
    → Rest l (b' ' ∷ bs)
    → skip_round (behind l) ≡ stop (behind l)
    → skip_whitespace l ≡ behind l
unfolding skip_whitespace skip_rounds
over_blank l bs w e =
    rw (skip_whitespace, skip_rounds, blank_round l bs w)
      (stopped (length l.content - l.cursor) (behind l)
        (omega (arith, leb→lt _ _ (Rest-inside l b' ' bs w))) e)

at_the_end : (l : Lexer) → Rest l [] → skip_whitespace l ≡ l
unfolding skip_whitespace
at_the_end l w = stopped (fuel_of l) l (omega arith) (end_round l w)

module _ ⦃env : Platform⦄ where
  -- The lexer gives tokens of these kinds, and then the end.
  pub data Lexes : Context → Lexer → List TokenKind → Type 0 where
    at_last : {ctx : Context} {l : Lexer} → (lexer_next ctx l).0.kind ≡ eof → Lexes ctx l []
    next_kind :
        {ctx : Context} {l : Lexer} {k : TokenKind} {ks : List TokenKind}
        → (lexer_next ctx l).0.kind ≡ k
        → Lexes (lexer_next ctx l).1 (lexer_next ctx l).2 ks
        → Lexes ctx l (k ∷ ks)

  behind_blank :
      (ctx : Context) (l : Lexer) (first : Bytes)
      → Rest l (b' ' ∷ first)
      → leb (length l.content) (behind l).cursor ≡ false
      → skip_round (behind l) ≡ stop (behind l)
      → lexer_next ctx l ≡ scan_token ctx (behind l) (advance_char (behind l))
  unfolding lexer_next
  behind_blank ctx l first w inside quiet = rw (over_blank l first w quiet, inside) refl

  ends : (ctx : Context) (l : Lexer) → Rest l [] → (lexer_next ctx l).0.kind ≡ eof
  unfolding lexer_next
  ends ctx l w = rw (at_the_end l w, Rest-ended l w) refl

  print-WordEnds : (laws : AsciiLaws env) (ks : List TokenKind) → WordEnds laws (print ks)
  print-WordEnds laws [] = rw (laws.alphanum_either 0) refl
  print-WordEnds laws (k ∷ ks) = rw (laws.alphanum_either b' ') refl

  module _ (laws : AsciiLaws env) (maps : MapLaws env) (names : InternLaws env) where
    -- The context has the table of keywords.
    abbrev pub Known : Context → Type 0
    Known ctx = KnowsAll maps names ctx keywords

    -- The token has the kind, the table is there, and `bs` are left.
    abbrev Given : TokenKind → Bytes → Scanned → Type 0
    Given k bs (tok, ctx', r) = (tok.kind ≡ k) × Known ctx' × Rest r bs

    module _ (ctx : Context) (l : Lexer) (bs : Bytes) (stops : WordEnds laws bs) where
      word-Given :
          (c d : ℕ) (v : Bytes) (k : TokenKind)
          → is_blank c ≡ false
          → (d == b'/') ≡ false
          → (d == b'*') ≡ false
          → is_letter c ≡ true
          → all_pass is_letter (c ∷ d ∷ v) ≡ true
          → Known ctx
          → Knows maps names ctx (c ∷ d ∷ v) k
          → Rest l (b' ' ∷ c ∷ d ∷ (v ++ bs))
          → Given k bs (lexer_next ctx l)
      word-Given c d v k blank no_slash no_star letter letters known knows w =
          let w' = Rest-behind l b' ' (c ∷ d ∷ (v ++ bs)) w in
          let (is_k, same, left) =
            scan_identifier-keyword laws maps names ctx (behind l) (c ∷ d ∷ v) bs k letters stops
              knows w' in
          rw
            (
              behind_blank ctx l (c ∷ d ∷ (v ++ bs)) w (Rest-inside (behind l) c _ w')
                  (quiet c (behind l) (d ∷ (v ++ bs)) w' blank no_slash no_star),
              at_letter laws maps names ctx (behind l) c (d ∷ (v ++ bs)) letter w',
            )
            (is_k, rw same (KnowsAll-kept maps names keywords ctx (c ∷ d ∷ v) known), left)

      keyword-Given :
          (k : TokenKind)
          → has_text k ≡ true
          → is_punct k ≡ false
          → Known ctx
          → Rest l (b' ' ∷ (tokenkind_to_cstr k ++ bs))
          → Given k bs (lexer_next ctx l)
      unfolding tokenkind_to_cstr
      keyword-Given kw_const h h' known w =
          word-Given b'c' b'o' (codes "nst") kw_const refl refl refl refl refl known (known.0) w
      keyword-Given kw_int h h' known w =
          word-Given b'i' b'n' (codes "t") kw_int refl refl refl refl refl known (known.1.0) w
      keyword-Given kw_bool h h' known w =
          word-Given b'b' b'o' (codes "ol") kw_bool refl refl refl refl refl known (known.1.1.0) w
      keyword-Given kw_float h h' known w =
          word-Given b'f' b'l' (codes "oat") kw_float refl refl refl refl refl known (known.1.1.1.0)
            w
      keyword-Given kw_double h h' known w =
          word-Given b'd' b'o' (codes "uble") kw_double refl refl refl refl refl known
            (known.1.1.1.1.0) w
      keyword-Given kw_void h h' known w =
          word-Given b'v' b'o' (codes "id") kw_void refl refl refl refl refl known
            (known.1.1.1.1.1.0) w
      keyword-Given kw_if h h' known w =
          word-Given b'i' b'f' (codes "") kw_if refl refl refl refl refl known (known.1.1.1.1.1.1.0)
            w
      keyword-Given kw_else h h' known w =
          word-Given b'e' b'l' (codes "se") kw_else refl refl refl refl refl known
            (known.1.1.1.1.1.1.1.0) w
      keyword-Given kw_while h h' known w =
          word-Given b'w' b'h' (codes "ile") kw_while refl refl refl refl refl known
            (known.1.1.1.1.1.1.1.1.0) w
      keyword-Given kw_break h h' known w =
          word-Given b'b' b'r' (codes "eak") kw_break refl refl refl refl refl known
            (known.1.1.1.1.1.1.1.1.1.0) w
      keyword-Given kw_continue h h' known w =
          word-Given b'c' b'o' (codes "ntinue") kw_continue refl refl refl refl refl known
            (known.1.1.1.1.1.1.1.1.1.1.0) w
      keyword-Given kw_return h h' known w =
          word-Given b'r' b'e' (codes "turn") kw_return refl refl refl refl refl known
            (known.1.1.1.1.1.1.1.1.1.1.1.0) w
      keyword-Given kw_true h h' known w =
          word-Given b't' b'r' (codes "ue") kw_true refl refl refl refl refl known
            (known.1.1.1.1.1.1.1.1.1.1.1.1.0) w
      keyword-Given kw_false h h' known w =
          word-Given b'f' b'a' (codes "lse") kw_false refl refl refl refl refl known
            (known.1.1.1.1.1.1.1.1.1.1.1.1.1.0) w
      keyword-Given _ h h' known w = cc

      punct-Given :
          (k : TokenKind)
          → is_punct k ≡ true
          → Follow bs
          → Known ctx
          → Rest l (b' ' ∷ (tokenkind_to_cstr k ++ bs))
          → Given k bs (lexer_next ctx l)
      punct-Given k h f known w =
          let (inside, quiet', gives) =
            punct-Spelled laws ctx (behind l) bs f k h (Rest-behind l b' ' _ w) in
          let (is_k, same, left) = gives in
          rw (behind_blank ctx l (tokenkind_to_cstr k ++ bs) w inside quiet')
            (is_k, rw same known, left)

      text-Given :
          (k : TokenKind)
          → has_text k ≡ true
          → Follow bs
          → Known ctx
          → Rest l (b' ' ∷ (tokenkind_to_cstr k ++ bs))
          → Given k bs (lexer_next ctx l)
      text-Given k h f known w = elim (Bool-cases (is_punct k)) [
        | inl e ↦ punct-Given k e f known w
        | inr e ↦ keyword-Given k h e known w
      ]

    -- Where letters and digits are those of ASCII, maps hold what was put in and the interner tells
    -- names apart: if the context has the table of keywords, and what is left of the file is the text
    -- of keywords, operators and punctuation with a blank in front of each, the tokens have these
    -- kinds, in this order, and the end follows.
    pub lexer_next-print :
        (ks : List TokenKind) (ctx : Context) (l : Lexer)
        → all_texts ks ≡ true
        → Known ctx
        → Rest l (print ks)
        → Lexes ctx l ks
    lexer_next-print [] ctx l h known w = at_last (ends ctx l w)
    lexer_next-print (k ∷ ks) ctx l h known w =
        let (hk, hks) = and_true (has_text k) (all_texts ks) h in
        let (is_k, known', left) =
          text-Given ctx l (print ks) (print-WordEnds laws ks) k hk (print-Follow ks) known w in
        next_kind is_k (lexer_next-print ks _ _ hks known' left)
