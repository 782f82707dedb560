-- ===== src/Lexer/Words.antt =====
-- Words, read by `scan_identifier`.
use cact.Prelude.{
  ℕ, zero, suc, ◌+◌, ◌-◌, ◌<◌, ◌≡◌, refl, sym, ap, ◌∙◌, Bool, true, false, ◌&&◌, [], ◌∷◌, ◌++◌,
  arith, and_true, length, take, drop, length-append, Bytes,
}
use cact.Context.{Context}
use cact.Context.Keywords.{Knows}
use cact.Lexer.{Lexer, advance_char, advance_while, fuel_of, skip_while}
use cact.Lexer.Next.{scan_token}
use cact.Lexer.Rest.{Rest, head_or_end, behind, Rest-behind, peek-Rest, advance-Rest}
use cact.Lexer.Scan.{is_word, lexeme, scan_identifier}
use cact.Platform.{Platform}
use cact.Platform.Laws.{MapLaws, is_letter, AsciiLaws, InternLaws}
use cact.Token.{TokenKind}

abbrev pub all_pass : (ℕ → Bool) → Bytes → Bool
all_pass test [] = true
all_pass test (c ∷ w) = test c && all_pass test w

take-append : (w bs : Bytes) → take (length w) (w ++ bs) ≡ w
take-append [] bs = refl
take-append (c ∷ w) bs = ap (λ v. c ∷ v) (take-append w bs)

-- The lexer `n` bytes further.
abbrev pub further_by : ℕ → Lexer → Lexer
further_by n l = record l { cursor = l.cursor + n }

further_by-zero : (l : Lexer) → further_by 0 l ≡ l
further_by-zero l = ap (λ n. record l { cursor = n }) (omega arith)

further_by-suc : (n : ℕ) (l : Lexer) → further_by (suc n) l ≡ further_by n (behind l)
further_by-suc n l = ap (λ m. record l { cursor = m }) (omega arith)

pub Rest-past : (w bs : Bytes) (l : Lexer) → Rest l (w ++ bs) → Rest (further_by (length w) l) bs
Rest-past [] bs l w = ap (λ m. drop m.cursor m.content) (further_by-zero l) ∙ w
Rest-past (c ∷ v) bs l w =
    ap (λ m. drop m.cursor m.content) (further_by-suc (length v) l)
    ∙ Rest-past v bs (behind l) (Rest-behind l c (v ++ bs) w)

drop-length : (xs : Bytes) (n : ℕ) → length (drop n xs) ≡ length xs - n
drop-length [] zero = refl
drop-length [] (suc n) = omega arith
drop-length (x ∷ xs) zero = omega arith
drop-length (x ∷ xs) (suc n) = omega (arith, drop-length xs n)

-- A run of bytes that pass, in front of one that does not.
past_word :
    (test : ℕ → Bool) (fuel : ℕ) (w bs : Bytes) (l : Lexer)
    → all_pass test w ≡ true
    → test (head_or_end bs) ≡ false
    → Rest l (w ++ bs)
    → length w < fuel
    → advance_while fuel test l ≡ further_by (length w) l
unfolding advance_while
past_word test zero w bs l h stops r k = absurd (omega arith)
past_word test (suc fuel) [] bs l h stops r k =
    rw (advance_while, peek-Rest l bs r, stops) (sym (further_by-zero l))
past_word test (suc fuel) (c ∷ v) bs l h stops r k =
    let (hc, hv) = and_true (test c) (all_pass test v) h in
    rw
      (
        advance_while,
        peek-Rest l (c ∷ (v ++ bs)) r,
        hc,
        advance-Rest l c (v ++ bs) r,
        further_by-suc (length v) l,
      )
      (past_word test fuel v bs (behind l) hv stops (Rest-behind l c (v ++ bs) r)
        (omega (arith, k)))

pub skip_while-word :
    (test : ℕ → Bool) (w bs : Bytes) (l : Lexer)
    → all_pass test w ≡ true
    → test (head_or_end bs) ≡ false
    → Rest l (w ++ bs)
    → skip_while test l ≡ further_by (length w) l
skip_while-word test w bs l h stops r =
    past_word test (fuel_of l) w bs l h stops r
      (omega (arith, drop-length l.content l.cursor, ap length r, length-append w bs))

add-sub-one : (n : ℕ) → n + 1 - 1 ≡ n
add-sub-one n = omega arith

pub add-sub : (n m : ℕ) → n + m - n ≡ m
add-sub n m = omega arith

module _ ⦃env : Platform⦄ where
  pub lexeme-word :
      (w bs : Bytes) (l : Lexer) → Rest l (w ++ bs) → lexeme (further_by (length w) l) l.cursor ≡ w
  lexeme-word w bs l r = rw (add-sub l.cursor (length w), r) (take-append w bs)

  module _ (laws : AsciiLaws env) where
    letters_pass : (w : Bytes) → all_pass is_letter w ≡ true → all_pass is_word w ≡ true
    letters_pass [] h = refl
    letters_pass (c ∷ w) h =
        let (hc, hw) = and_true (is_letter c) (all_pass is_letter w) h in
        rw (laws.alphanum_either c, hc) (letters_pass w hw)

    -- The next byte belongs to no word.
    abbrev pub WordEnds : Bytes → Type 0
    WordEnds bs = is_word (head_or_end bs) ≡ false

    module _ (maps : MapLaws env) (names : InternLaws env) where
      -- A keyword that the table has, at the cursor.
      pub scan_identifier-keyword :
          (ctx : Context) (l : Lexer) (w bs : Bytes) (k : TokenKind)
          → all_pass is_letter w ≡ true
          → WordEnds bs
          → Knows maps names ctx w k
          → Rest l (w ++ bs)
          → ((scan_identifier ctx l).0.kind ≡ k)
            × ((scan_identifier ctx l).1 ≡ record ctx { itn = (env.intern ctx.itn w).0 })
            × Rest (scan_identifier ctx l).2 bs
      unfolding scan_identifier
      scan_identifier-keyword ctx l w bs k letters stops (x, holds, at_x) r =
          rw
            (
              skip_while-word is_word w bs l (letters_pass w letters) stops r,
              lexeme-word w bs l r,
              names.same_id ctx.itn w x holds,
              at_x,
            )
            (refl, refl, Rest-past w bs l r)

      pub at_letter :
          (ctx : Context) (l : Lexer) (c : ℕ) (bs : Bytes)
          → is_letter c ≡ true
          → Rest l (c ∷ bs)
          → scan_token ctx l (advance_char l) ≡ scan_identifier ctx l
      unfolding scan_token advance_char
      at_letter ctx l c bs h r =
          rw
            (
              peek-Rest l (c ∷ bs) r,
              advance-Rest l c bs r,
              laws.alpha_letter c,
              h,
              add-sub-one l.cursor,
            )
            refl
