-- ===== src/Lexer/Comments.antt =====
-- Comments: how the loop over a block comment ends.
use cact.Prelude.{
  ℕ, zero, suc, ◌≤◌, ◌≡◌, refl, ap, ◌∙◌, inl, inr, Bool, true, false, ◌&&◌, arith, leb, ◌==◌,
  if◌then◌else◌, leb→lt, ==_iff, Bool-cases, length,
}
use cact.Lexer.{Lexer, peek, peek_next, advance, advance_while}
use cact.Lexer.Cursor.{Room, peek_past, advance_inside}
use cact.Lexer.Trivia.{Flow, again, stop, block_comment}

-- From `l` the cursor went on to `r`, in the same file, and not past its end if it was not there,
-- and no loop was cut off.
pub record Ahead (l r : Lexer) : Type 0 where
  pub same_bytes : r.content ≡ l.content
  pub onward : l.cursor ≤ r.cursor
  pub inside : l.cursor ≤ length l.content → r.cursor ≤ length r.content
  pub ran : r.cut_off ≡ l.cut_off

pub Ahead-refl : (l : Lexer) → Ahead l l
Ahead-refl l = record { same_bytes = refl; onward = omega arith; inside = λ h. h; ran = refl }

pub advance-Ahead : (l : Lexer) → Ahead l (advance l)
unfolding advance
advance-Ahead l = elim (Bool-cases (leb (length l.content) l.cursor)) [
  | inl e ↦ rw e (Ahead-refl l)
  | inr e ↦ rw e (record {
    same_bytes = refl;
    onward = omega arith;
    inside = λ h. omega (arith, leb→lt _ _ e);
    ran = refl;
  })
]

pub Ahead-trans : (a b c : Lexer) → Ahead a b → Ahead b c → Ahead a c
Ahead-trans a b c h k = record {
  same_bytes = k.same_bytes ∙ h.same_bytes;
  onward = omega (arith, h.onward, k.onward);
  inside = λ i. k.inside (h.inside i);
  ran = k.ran ∙ h.ran;
}

pub advance-Room :
    (fuel : ℕ) (l : Lexer)
    → Room (suc fuel) l
    → leb (length l.content) l.cursor ≡ false
    → Room fuel (advance l)
advance-Room fuel l room e = rw (advance_inside l e) (omega (arith, room, leb→lt _ _ e))

-- A byte that passes a test is no end of the file, if the end does not pass.
passing_inside :
    (test : ℕ → Bool)
    → test 0 ≡ false
    → (l : Lexer) → test (peek l) ≡ true
    → leb (length l.content) l.cursor ≡ false
passing_inside test end_fails l e = elim (Bool-cases (leb (length l.content) l.cursor)) [
  | inl past ↦ cc (e, end_fails, ap test (peek_past l past))
  | inr inside ↦ inside
]

pub advance_while-Ahead :
    (test : ℕ → Bool)
    → test 0 ≡ false
    → (fuel : ℕ) (l : Lexer) → Room fuel l
    → Ahead l (advance_while fuel test l)
unfolding advance_while
advance_while-Ahead test end_fails zero l room = absurd (omega (arith, room))
advance_while-Ahead test end_fails (suc fuel) l room = elim (Bool-cases (test (peek l))) [
  | inl e ↦
      let inside = passing_inside test end_fails l e in
      rw (e, advance_while)
        (Ahead-trans l (advance l) (advance_while fuel test (advance l)) (advance-Ahead l)
          (advance_while-Ahead test end_fails fuel (advance l) (advance-Room fuel l room inside)))
  | inr e ↦ rw (e, advance_while) (Ahead-refl l)
]

-- The loop behind `/*` ends at a byte 0 or at the end of the file, or goes on behind the comment.
abbrev pub Closed : Lexer → Flow → Type 0
Closed l (again r) = Ahead l r
Closed l (stop r) = Ahead l r × (peek r ≡ 0)

Closed-after : (l l' : Lexer) (w : Flow) → Ahead l l' → Closed l' w → Closed l w
Closed-after l l' (again r) h k = Ahead-trans l l' r h k
Closed-after l l' (stop r) h (k, e) = (Ahead-trans l l' r h k, e)

block_comment-step :
    (l : Lexer) (rest : Flow)
    → ((peek l == 0) ≡ false → Closed l rest)
    → Closed l (
        if peek l == 0
        then stop l
        else if peek l == b'*' && peek_next l == b'/'
        then again (advance (advance l))
        else rest)
block_comment-step l rest h = elim (Bool-cases (peek l == 0)) [
  | inl e ↦ rw e (Ahead-refl l, (==_iff (peek l) 0).0 e)
  | inr e ↦ rw e (elim (Bool-cases (peek l == b'*' && peek_next l == b'/')) [
    | inl e' ↦ rw e' (
        Ahead-trans l (advance l) (advance (advance l)) (advance-Ahead l)
          (advance-Ahead (advance l)))
    | inr e' ↦ rw e' (h e)
  ])
]

pub byte_inside : (l : Lexer) → (peek l == 0) ≡ false → leb (length l.content) l.cursor ≡ false
byte_inside l e = elim (Bool-cases (leb (length l.content) l.cursor)) [
  | inl past ↦ cc (e, (==_iff (peek l) 0).1 (peek_past l past))
  | inr inside ↦ inside
]

-- The loop over a block comment, from behind its `/*`, stops behind a `*/`,
-- or where the file ends or has a byte 0, which ends the comment and with it the whole skipping. The
-- cursor never moves backwards.
pub block_comment-Closed : (fuel : ℕ) (l : Lexer) → Room fuel l → Closed l (block_comment fuel l)
unfolding block_comment
block_comment-Closed zero l room = absurd (omega (arith, room))
block_comment-Closed (suc fuel) l room = block_comment-step l (block_comment fuel (advance l)) λ e.
    Closed-after l (advance l) (block_comment fuel (advance l)) (advance-Ahead l)
      (block_comment-Closed fuel (advance l) (advance-Room fuel l room (byte_inside l e)))
