-- ===== src/Lexer/Numbers.antt =====
-- Decimal integers, read by `scan_number`.
use cact.Prelude.{
  ℕ, ◌%◌, ◌^◌, ◌≡◌, refl, ap, ◌∙◌, inl, inr, Bool, true, false, ◌&&◌, ◌||◌, [], ◌∷◌, ◌++◌, leb,
  ◌==◌, if◌then◌else◌, ==_iff, Bool-cases, and_true, length, Bytes,
}
use cact.Context.{text, Context}
use cact.Lexer.{Lexer, peek}
use cact.Lexer.Rest.{Rest, head_or_end, peek-Rest, peek_next-Rest}
use cact.Lexer.Scan.{
  make_token, lexer_error_token, scanned, scan_suffix, scan_exponent, scan_decimal, scan_digits,
  literal_token, finish_number, scan_number,
}
use cact.Lexer.Words.{all_pass, further_by, Rest-past, skip_while-word, add-sub, lexeme-word}
use cact.Platform.{Platform}
use cact.Platform.Laws.{is_decimal, AsciiLaws}
use cact.Token.{lit_int}
use cact.Token.Value.{as_int}

-- What ends a decimal integer: no digit, and nothing that would make another literal of it.
pub record NumberEnds (bs : Bytes) : Type 0 where
  pub no_digit : is_decimal (head_or_end bs) ≡ false
  pub no_dot : (head_or_end bs == b'.') ≡ false
  pub no_exponent : (head_or_end bs == b'e' || head_or_end bs == b'E') ≡ false
  pub no_suffix : (head_or_end bs == b'f' || head_or_end bs == b'F') ≡ false
  pub no_hex : (head_or_end bs == b'x' || head_or_end bs == b'X') ≡ false

decimal_ne : (c d : ℕ) → is_decimal c ≡ true → is_decimal d ≡ false → (c == d) ≡ false
decimal_ne c d h k = elim (Bool-cases (c == d)) [
  | inl e ↦ cc (h, k, ap is_decimal ((==_iff c d).0 e))
  | inr e ↦ e
]

-- Behind the first digit no `x` follows.
no_x :
    (v bs : Bytes)
    → all_pass is_decimal v ≡ true
    → NumberEnds bs
    → (head_or_end (v ++ bs) == b'x' || head_or_end (v ++ bs) == b'X') ≡ false
no_x [] bs h e = e.no_hex
no_x (d ∷ v) bs h e =
    let (hd, hv) = and_true (is_decimal d) (all_pass is_decimal v) h in
    rw (decimal_ne d b'x' hd refl, decimal_ne d b'X' hd refl) refl

and_false_right : (b : Bool) → (b && false) ≡ false
and_false_right true = refl
and_false_right false = refl

module _ ⦃env : Platform⦄ (laws : AsciiLaws env) where
  digits_pass : (w : Bytes) → all_pass is_decimal w ≡ true → all_pass env.char_is_digit w ≡ true
  digits_pass [] h = refl
  digits_pass (c ∷ w) h =
      let (hc, hw) = and_true (is_decimal c) (all_pass is_decimal w) h in
      rw (laws.digit_decimal c, hc) (digits_pass w hw)

  scan_suffix-none :
      (l : Lexer) (bs : Bytes)
      → NumberEnds bs
      → Rest l bs
      → scan_suffix false l ≡ scanned false false l
  unfolding scan_suffix
  scan_suffix-none l bs e r = rw (peek-Rest l bs r, e.no_suffix) refl

  scan_exponent-none :
      (l : Lexer) (bs : Bytes)
      → NumberEnds bs
      → Rest l bs
      → scan_exponent false l ≡ scanned false false l
  unfolding scan_exponent
  scan_exponent-none l bs e r = rw (peek-Rest l bs r, e.no_exponent) (scan_suffix-none l bs e r)

  scan_decimal-integer :
      (l : Lexer) (w bs : Bytes)
      → all_pass is_decimal w ≡ true
      → NumberEnds bs
      → Rest l (w ++ bs)
      → scan_decimal l ≡ scanned false false (further_by (length w) l)
  unfolding scan_decimal
  scan_decimal-integer l w bs h e r =
      let left = Rest-past w bs l r in
      rw
        (
          skip_while-word env.char_is_digit w bs l (digits_pass w h)
              (laws.digit_decimal (head_or_end bs) ∙ e.no_digit) r,
          peek-Rest (further_by (length w) l) bs left,
          e.no_dot,
        )
        (scan_exponent-none (further_by (length w) l) bs e left)

  scan_digits-integer :
      (l : Lexer) (c : ℕ) (v bs : Bytes)
      → all_pass is_decimal (c ∷ v) ≡ true
      → NumberEnds bs
      → Rest l (c ∷ (v ++ bs))
      → scan_digits l ≡ scan_decimal l
  unfolding scan_digits
  scan_digits-integer l c v bs h e r =
      let (hc, hv) = and_true (is_decimal c) (all_pass is_decimal v) h in
      rw (peek_next-Rest l c (v ++ bs) r, no_x v bs hv e, and_false_right (peek l == b'0')) refl

  -- Where letters and digits are those of ASCII: a run of decimal digits, in front of nothing that
  -- would make another literal of it, is read as an integer, with the value that `strtoll` has for
  -- the text, in 32 bits; from 128 digits on it is an error, which is reported.
  pub scan_number-integer :
      (ctx : Context) (l : Lexer) (c : ℕ) (v bs : Bytes)
      → all_pass is_decimal (c ∷ v) ≡ true
      → NumberEnds bs
      → Rest l (c ∷ (v ++ bs))
      → let r = further_by (length (c ∷ v)) l in
        scan_number ctx l ≡ (
          if leb 128 (length (c ∷ v))
          then lexer_error_token ctx r (text "Number literal too long") l.cursor
          else (make_token ctx r l.cursor lit_int (as_int (env.strtoll (c ∷ v) % 2 ^ 32)), ctx, r))
  unfolding scan_number finish_number literal_token
  scan_number-integer ctx l c v bs h e r =
      rw
        (
          scan_digits-integer l c v bs h e r,
          scan_decimal-integer l (c ∷ v) bs h e r,
          lexeme-word (c ∷ v) bs l r,
          add-sub l.cursor (length (c ∷ v)),
        )
        refl
