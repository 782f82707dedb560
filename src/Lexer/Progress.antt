-- ===== src/Lexer/Progress.antt =====
-- src/lexer.c: every token but the end of the file takes a byte at least, and no scanner moves the
-- cursor past the end of the file.
pub mod Next
use cact.Prelude.{
  ℕ, ◌-◌, ◌<◌, ◌≡◌, refl, inl, inr, Bool, true, false, not, ◌&&◌, ◌||◌, arith, leb, ◌==◌,
  if◌then◌else◌, leb→lt, ==_iff, Bool-cases, length,
}
use cact.Context.{Context}
use cact.Lexer.{Lexer, peek, peek_next, advance, match_char, advance_while, fuel_of, skip_while}
use cact.Lexer.Comments.{
  Ahead, Ahead-refl, advance-Ahead, Ahead-trans, advance-Room, advance_while-Ahead, byte_inside,
}
use cact.Lexer.Scan.{
  lexer_error_token, is_word, scan_identifier, Digits, scanned, refused, scan_suffix, scan_exponent,
  scan_decimal, scan_hex, scan_digits, finish_number, scan_number,
}
use cact.Lexer.Skipping.{advance-strict}
use cact.Platform.{Platform}
use cact.Platform.Laws.{CharLaws}

-- The cursor went on, by a byte at least, from inside the file.
pub record Moved (l r : Lexer) : Type 0 where
  pub ahead : Ahead l r
  pub further : l.cursor < r.cursor
  pub began : l.cursor < length l.content

pub Moved-Ahead : (l m r : Lexer) → Moved l m → Ahead m r → Moved l r
Moved-Ahead l m r h k = record {
  ahead = Ahead-trans l m r h.ahead k;
  further = omega (arith, h.further, k.onward);
  began = h.began;
}

pub advance-Moved : (l : Lexer) → leb (length l.content) l.cursor ≡ false → Moved l (advance l)
advance-Moved l e = record {
  ahead = advance-Ahead l;
  further = advance-strict l e;
  began = leb→lt _ _ e;
}

skip_while-Ahead : (test : ℕ → Bool) → test 0 ≡ false → (l : Lexer) → Ahead l (skip_while test l)
skip_while-Ahead test end_fails l = advance_while-Ahead test end_fails (fuel_of l) l (omega arith)

again_lem :
    (test : ℕ → Bool) (l : Lexer)
    → test (peek l) ≡ true
    → skip_while test l ≡ advance_while (length l.content - l.cursor) test (advance l)
unfolding advance_while
again_lem test l e = rw (e, advance_while) refl

skip_while-Moved :
    (test : ℕ → Bool)
    → test 0 ≡ false
    → (l : Lexer) → test (peek l) ≡ true
    → leb (length l.content) l.cursor ≡ false
    → Moved l (skip_while test l)
skip_while-Moved test end_fails l e inside = rw (again_lem test l e) (
    Moved-Ahead l (advance l) _ (advance-Moved l inside) (
      advance_while-Ahead test end_fails (length l.content - l.cursor) (advance l)
        (advance-Room (length l.content - l.cursor) l (omega arith) inside)))

skip_while_none : (test : ℕ → Bool) (l : Lexer) → test (peek l) ≡ false → skip_while test l ≡ l
unfolding advance_while
skip_while_none test l e = rw (e, advance_while) refl

pub match_char-Ahead : (l : Lexer) (c : ℕ) → (c == 0) ≡ false → Ahead l ((match_char l c).1)
unfolding match_char
match_char-Ahead l c n = elim (Bool-cases (peek l == c)) [
  | inl e ↦
      let same = (==_iff (peek l) c).0 e in
      let here = byte_inside l (rw same n) in
      rw e (record {
        same_bytes = refl;
        onward = omega arith;
        inside = λ h. omega (arith, leb→lt _ _ here);
        ran = refl;
      })
  | inr e ↦ rw e (Ahead-refl l)
]

module _ ⦃env : Platform⦄ (laws : CharLaws env) where
  abbrev lexer_of : Digits → Lexer
  lexer_of (scanned real is_float_32 l) = l
  lexer_of (refused msg l) = l

  scan_suffix-Ahead : (real : Bool) (l : Lexer) → Ahead l (lexer_of (scan_suffix real l))
  unfolding scan_suffix
  scan_suffix-Ahead real l = elim (Bool-cases (peek l == b'f' || peek l == b'F')) [
    | inl e ↦
        rw e
          (elim (Bool-cases real) [ inl r ↦ rw r (advance-Ahead l) | inr r ↦ rw r (Ahead-refl l) ])
    | inr e ↦ rw e (Ahead-refl l)
  ]

  sign-Ahead : (l : Lexer) → Ahead l (if peek l == b'+' || peek l == b'-' then advance l else l)
  sign-Ahead l = elim (Bool-cases (peek l == b'+' || peek l == b'-')) [
    | inl e ↦ rw e (advance-Ahead l)
    | inr e ↦ rw e (Ahead-refl l)
  ]

  power-Ahead :
      (l l₂ : Lexer)
      → Ahead l l₂
      → Ahead l (
          lexer_of (
            if not (env.char_is_digit (peek l₂))
            then refused "Exponent has no digits" l₂
            else scan_suffix true (skip_while env.char_is_digit l₂)))
  power-Ahead l l₂ h = elim (Bool-cases (env.char_is_digit (peek l₂))) [
    | inl e ↦ rw e (
        Ahead-trans l l₂ _ h (
          Ahead-trans l₂ (skip_while env.char_is_digit l₂) _
            (skip_while-Ahead env.char_is_digit laws.digit_end l₂)
            (scan_suffix-Ahead true (skip_while env.char_is_digit l₂))))
    | inr e ↦ rw e h
  ]

  scan_exponent-Ahead : (b : Bool) (l : Lexer) → Ahead l (lexer_of (scan_exponent b l))
  unfolding scan_exponent
  scan_exponent-Ahead b l = elim (Bool-cases (peek l == b'e' || peek l == b'E')) [
    | inl e ↦
        rw e
          (power-Ahead l _ (Ahead-trans l (advance l) _ (advance-Ahead l) (sign-Ahead (advance l))))
    | inr e ↦ rw e (scan_suffix-Ahead b l)
  ]

  fraction-Ahead :
      (l : Lexer)
      → Ahead (advance l) (lexer_of (scan_exponent true (skip_while env.char_is_digit (advance l))))
  fraction-Ahead l =
      Ahead-trans (advance l) (skip_while env.char_is_digit (advance l)) _
        (skip_while-Ahead env.char_is_digit laws.digit_end (advance l)) (scan_exponent-Ahead true _)

  -- A number at a digit.
  pub scan_decimal-digit :
      (l : Lexer)
      → env.char_is_digit (peek l) ≡ true
      → leb (length l.content) l.cursor ≡ false
      → Moved l (lexer_of (scan_decimal l))
  unfolding scan_decimal
  scan_decimal-digit l digit inside =
      let l₁ = skip_while env.char_is_digit l in
      let m = skip_while-Moved env.char_is_digit laws.digit_end l digit inside in
      elim (Bool-cases (peek l₁ == b'.')) [
        | inl e ↦ rw e (
            Moved-Ahead l l₁ _ m
              (Ahead-trans l₁ (advance l₁) _ (advance-Ahead l₁) (fraction-Ahead l₁)))
        | inr e ↦ rw e (Moved-Ahead l l₁ _ m (scan_exponent-Ahead false l₁))
      ]

  -- A number at a dot.
  pub scan_decimal-dot :
      (l : Lexer)
      → peek l ≡ b'.'
      → leb (length l.content) l.cursor ≡ false
      → env.char_is_digit (peek l) ≡ false
      → Moved l (lexer_of (scan_decimal l))
  unfolding scan_decimal
  scan_decimal-dot l dot inside stays =
      rw (skip_while_none env.char_is_digit l stays, dot)
        (Moved-Ahead l (advance l) _ (advance-Moved l inside) (fraction-Ahead l))

  scan_hex-Ahead : (l : Lexer) → Ahead l (lexer_of (scan_hex l))
  unfolding scan_hex
  scan_hex-Ahead l = elim (Bool-cases (env.char_is_hex (peek l))) [
    | inl e ↦ rw e (skip_while-Ahead env.char_is_hex laws.hex_end l)
    | inr e ↦ rw e (Ahead-refl l)
  ]

  scan_digits-Moved :
      (l : Lexer)
      → leb (length l.content) l.cursor ≡ false
      → Moved l (lexer_of (scan_decimal l))
      → Moved l (lexer_of (scan_digits l))
  unfolding scan_digits
  scan_digits-Moved l inside decimal =
      elim (Bool-cases (peek l == b'0' && (peek_next l == b'x' || peek_next l == b'X'))) [
        | inl e ↦ rw e (
            Moved-Ahead l (advance l) _ (advance-Moved l inside) (
              Ahead-trans (advance l) (advance (advance l)) _ (advance-Ahead (advance l))
                (scan_hex-Ahead (advance (advance l)))))
        | inr e ↦ rw e decimal
      ]

  finish_number-lexer :
      (ctx : Context) (start : ℕ) (d : Digits) → (finish_number ctx start d).2 ≡ lexer_of d
  unfolding finish_number lexer_error_token
  finish_number-lexer ctx start (refused msg l) = refl
  finish_number-lexer ctx start (scanned real is_float_32 l) =
      elim (Bool-cases (leb 128 (l.cursor - start))) [ inl e ↦ rw e refl | inr e ↦ rw e refl ]

  pub scan_number-Moved :
      (ctx : Context) (l : Lexer)
      → leb (length l.content) l.cursor ≡ false
      → Moved l (lexer_of (scan_decimal l))
      → Moved l ((scan_number ctx l).2)
  unfolding scan_number
  scan_number-Moved ctx l inside decimal =
      rw (finish_number-lexer ctx l.cursor (scan_digits l)) (scan_digits-Moved l inside decimal)

  pub scan_identifier-Moved :
      (ctx : Context) (l : Lexer)
      → is_word (peek l) ≡ true
      → leb (length l.content) l.cursor ≡ false
      → Moved l ((scan_identifier ctx l).2)
  unfolding scan_identifier
  scan_identifier-Moved ctx l word inside =
      skip_while-Moved is_word (rw laws.alphanum_end refl) l word inside
