-- ===== src/Lexer/Cursor.antt =====
-- The loops that move the cursor while a test holds.
use cact.Prelude.{
  ℕ, zero, suc, ◌+◌, ◌-◌, ◌≤◌, ◌<◌, ◌≡◌, refl, sym, ap, ◌∙◌, inl, inr, Bool, true, false, arith,
  leb, ◌==◌, leb→lt, ==_iff, Bool-cases, length,
}
use cact.Lexer.{Lexer, content_at, peek, advance, advance_while, fuel_of, skip_while}

-- Room for the loop: a round for each byte left and one more.
abbrev pub Room : ℕ → Lexer → Type 0
Room fuel l = length l.content - l.cursor < fuel

pub peek_past : (l : Lexer) → leb (length l.content) l.cursor ≡ true → peek l ≡ 0
unfolding peek
peek_past l e = rw e refl

pub advance_inside :
    (l : Lexer)
    → leb (length l.content) l.cursor ≡ false
    → advance l ≡ record l { cursor = l.cursor + 1 }
unfolding advance
advance_inside l e = rw e refl

peek_inside : (l : Lexer) → leb (length l.content) l.cursor ≡ false → peek l ≡ content_at l l.cursor
unfolding peek
peek_inside l e = rw e refl

-- What a loop over the bytes that pass a test has done when it has gone from `l` to `r`.
pub record Munched (test : ℕ → Bool) (l r : Lexer) : Type 0 where
  pub same_content : r.content ≡ l.content
  pub same_file : r.file_id ≡ l.file_id
  pub same_run : r.cut_off ≡ l.cut_off
  pub forward : l.cursor ≤ r.cursor
  pub stopped : test (peek r) ≡ false
  pub passed : (i : ℕ) → l.cursor ≤ i → i < r.cursor → test (content_at l i) ≡ true

module _ (test : ℕ → Bool) (end_fails : test 0 ≡ false) where
  one_more_byte :
      (l r : Lexer)
      → test (content_at l l.cursor) ≡ true
      → Munched test (record l { cursor = l.cursor + 1 }) r
      → Munched test l r
  one_more_byte l r first m = record {
    same_content = m.same_content;
    same_file = m.same_file;
    same_run = m.same_run;
    forward = omega (arith, m.forward);
    stopped = m.stopped;
    passed = λ i lo hi. elim (Bool-cases (l.cursor == i)) [
      | inl e ↦ rw (sym ((==_iff l.cursor i).0 e)) first
      | inr e ↦ m.passed i (ground arith) hi
    ];
  }

  pub advance_while_again :
      (fuel : ℕ) (l : Lexer)
      → test (peek l) ≡ true
      → advance_while (suc fuel) test l ≡ advance_while fuel test (advance l)
  unfolding advance_while
  advance_while_again fuel l e = rw (e, advance_while) refl

  advance_while_done :
      (fuel : ℕ) (l : Lexer) → test (peek l) ≡ false → advance_while (suc fuel) test l ≡ l
  unfolding advance_while
  advance_while_done fuel l e = rw (e, advance_while) refl

  stays : (l : Lexer) → test (peek l) ≡ false → Munched test l l
  stays l e = record {
    same_content = refl;
    same_file = refl;
    same_run = refl;
    forward = omega arith;
    stopped = e;
    passed = λ i lo hi. absurd (omega arith);
  }

  stops_past : (l : Lexer) → leb (length l.content) l.cursor ≡ true → test (peek l) ≡ false
  stops_past l e = rw (peek_past l e) end_fails

  pub advance_while-Munched :
      (fuel : ℕ) (l : Lexer) → Room fuel l → Munched test l (advance_while fuel test l)
  advance_while-Munched zero l room = absurd (omega (arith, room))
  advance_while-Munched (suc fuel) l room = elim (Bool-cases (test (peek l))) [
    | inr e ↦ rw (advance_while_done fuel l e) (stays l e)
    | inl e ↦ elim (Bool-cases (leb (length l.content) l.cursor)) [
      | inl past ↦ cc (e, stops_past l past)
      | inr inside ↦
          rw
            (advance_while_again fuel l e
              ∙ ap (λ x. advance_while fuel test x) (advance_inside l inside))
            (one_more_byte l _ (rw (peek_inside l inside) at e) (
              advance_while-Munched fuel (record l { cursor = l.cursor + 1 })
                (omega (arith, room, leb→lt _ _ inside))))
    ]
  ]

  -- For a test that the end of the file fails, the loop goes over the longest run of bytes that
  -- pass: it changes only the cursor, moves it over bytes that pass the test, and stops where the
  -- next byte does not pass or the file ends.
  pub skip_while-Munched : (l : Lexer) → Munched test l (skip_while test l)
  skip_while-Munched l = advance_while-Munched (fuel_of l) l (omega arith)
