-- ===== src/Lexer/Skipping.antt =====
-- src/lexer.c, `skip_whitespace`: where its loops stop.
use cact.Prelude.{
  ℕ, zero, suc, ◌-◌, ◌<◌, ◌≡◌, refl, ap, inl, inr, Bool, true, false, not, ◌&&◌, ◌||◌, arith, leb,
  ◌==◌, leb→lt, ==_iff, Bool-cases, length,
}
use cact.Lexer.{Lexer, peek, peek_next, advance, advance_while, fuel_of, skip_while}
use cact.Lexer.Comments.{
  Ahead, Ahead-refl, advance-Ahead, Ahead-trans, advance-Room, advance_while-Ahead, Closed,
  byte_inside, block_comment-Closed,
}
use cact.Lexer.Cursor.{Room, advance_inside, Munched, advance_while_again, advance_while-Munched}
use cact.Lexer.Trivia.{
  is_blank, Flow, again, stop, block_comment, skip_round, skip_rounds, skip_whitespace,
}

-- The bytes that are blank: the space, \r, \t, \n, and the bytes 11 and 12.
abbrev pub blank_byte : ℕ → Bool
blank_byte c = c == 32 || c == 13 || c == 9 || c == 10 || c == 11 || c == 12

-- `//` or `/*` at the cursor.
abbrev pub comment_begins : Lexer → Bool
comment_begins l = peek l == 47 && (peek_next l == 47 || peek_next l == 42)

-- Neither a blank nor a comment is next.
abbrev pub Clear : Lexer → Type 0
Clear l = (blank_byte (peek l) ≡ false) × (comment_begins l ≡ false)

-- How a round from `l` ends: it goes on strictly further, or it stops where nothing is to skip.
abbrev Skipped : Lexer → Flow → Type 0
Skipped l (again r) = Ahead l r × (l.cursor < r.cursor) × (l.cursor < length l.content)
Skipped l (stop r) = Ahead l r × Clear r

no_slash-Clear : (l : Lexer) → is_blank (peek l) ≡ false → (peek l == b'/') ≡ false → Clear l
no_slash-Clear l blank plain = (blank, rw plain refl)

no_comment-Clear :
    (l : Lexer)
    → is_blank (peek l) ≡ false
    → (peek_next l == b'/') ≡ false
    → (peek_next l == b'*') ≡ false
    → Clear l
no_comment-Clear l blank no_line no_block = (
  blank,
  rw (no_line, no_block)
      (elim (Bool-cases (peek l == 47)) [ inl e ↦ rw e refl | inr e ↦ rw e refl ]),
)

end-Clear : (l : Lexer) → peek l ≡ 0 → Clear l
end-Clear l e = no_slash-Clear l (ap is_blank e) (ap (λ c. c == b'/') e)

pub blank-nonzero : (c : ℕ) → is_blank c ≡ true → (c == 0) ≡ false
blank-nonzero c h = elim (Bool-cases (c == 0)) [
  | inl e ↦ cc (h, ap is_blank ((==_iff c 0).0 e))
  | inr e ↦ e
]

pub advance-strict :
    (l : Lexer) → leb (length l.content) l.cursor ≡ false → l.cursor < (advance l).cursor
advance-strict l e = rw (advance_inside l e) (omega arith)

Room-Ahead : (fuel : ℕ) (l r : Lexer) → Ahead l r → Room fuel l → Room fuel r
Room-Ahead fuel l r h room = omega (arith, ap length h.same_bytes, h.onward)

abbrev pub in_line : ℕ → Bool
in_line c = not (c == b'\n') && not (c == 0)

line-Skipped :
    (l : Lexer)
    → peek l ≡ b'/'
    → leb (length l.content) l.cursor ≡ false
    → Skipped l (again (skip_while in_line l))
line-Skipped l at_slash inside =
    let left = length l.content - l.cursor in
    let m : Munched in_line (advance l) (advance_while left in_line (advance l)) =
      advance_while-Munched in_line refl left (advance l)
        (advance-Room left l (omega arith) inside) in
    rw (advance_while_again in_line refl left l (ap in_line at_slash)) (
      Ahead-trans l (advance l) (advance_while left in_line (advance l)) (advance-Ahead l) (
          advance_while-Ahead in_line refl left (advance l)
            (advance-Room left l (omega arith) inside)),
      omega (arith, advance-strict l inside, m.forward),
      leb→lt _ _ inside,
    )

after_comment :
    (l l' : Lexer) (w : Flow)
    → Ahead l l'
    → l.cursor < l'.cursor
    → l.cursor < length l.content
    → Closed l' w
    → Skipped l w
after_comment l l' (again r) h lt' i k = (Ahead-trans l l' r h k, omega (arith, lt', k.onward), i)
after_comment l l' (stop r) h lt' i (k, e) = (Ahead-trans l l' r h k, end-Clear r e)

block-Skipped :
    (l : Lexer)
    → leb (length l.content) l.cursor ≡ false
    → Skipped l (block_comment (fuel_of l) (advance (advance l)))
block-Skipped l inside =
    let h =
      Ahead-trans l (advance l) (advance (advance l)) (advance-Ahead l)
        (advance-Ahead (advance l)) in
    after_comment l (advance (advance l)) (block_comment (fuel_of l) (advance (advance l))) h
      (omega (arith, advance-strict l inside, (advance-Ahead (advance l)).onward))
      (leb→lt _ _ inside)
      (block_comment-Closed (fuel_of l) (advance (advance l))
        (Room-Ahead (fuel_of l) l (advance (advance l)) h (omega arith)))

nonzero : (l : Lexer) → peek l ≡ b'/' → (peek l == 0) ≡ false
nonzero l at_slash = ap (λ c. c == 0) at_slash

skip_round-Skipped : (l : Lexer) → Skipped l (skip_round l)
unfolding skip_round
skip_round-Skipped l = elim (Bool-cases (is_blank (peek l))) [
  | inl e ↦
      let inside = byte_inside l (blank-nonzero (peek l) e) in
      rw e (advance-Ahead l, advance-strict l inside, leb→lt _ _ inside)
  | inr e ↦ rw e (elim (Bool-cases (peek l == b'/')) [
    | inr plain ↦ rw plain (Ahead-refl l, no_slash-Clear l e plain)
    | inl starts ↦
        let at_slash = (==_iff (peek l) b'/').0 starts in
        let inside = byte_inside l (nonzero l at_slash) in
        rw starts (elim (Bool-cases (peek_next l == b'/')) [
          | inl a ↦ rw a (line-Skipped l at_slash inside)
          | inr a ↦ rw a (elim (Bool-cases (peek_next l == b'*')) [
            | inl b ↦ rw b (block-Skipped l inside)
            | inr b ↦ rw b (Ahead-refl l, no_comment-Clear l e a b)
          ])
        ])
  ])
]

rounds-step :
    (fuel : ℕ) (l : Lexer) (w : Flow)
    → Skipped l w
    → ((r : Lexer)
        → Ahead l r
        → l.cursor < r.cursor
        → l.cursor < length l.content
        → Ahead r (skip_rounds fuel r) × Clear (skip_rounds fuel r))
    → let r = elim w as (λ _. Lexer) [ again l' ↦ skip_rounds fuel l' | stop l' ↦ l' ] in
      Ahead l r × Clear r
rounds-step fuel l (again r) (h, lt', i) k =
    let (a, e) = k r h lt' i in (Ahead-trans l r (skip_rounds fuel r) h a, e)
rounds-step fuel l (stop r) h k = h

skip_rounds-stops :
    (fuel : ℕ) (l : Lexer) → Room fuel l → Ahead l (skip_rounds fuel l) × Clear (skip_rounds fuel l)
unfolding skip_rounds
skip_rounds-stops zero l room = absurd (omega (arith, room))
skip_rounds-stops (suc fuel) l room =
    rounds-step fuel l (skip_round l) (skip_round-Skipped l)
      λ r h lt' i. skip_rounds-stops fuel r (omega (arith, ap length h.same_bytes, lt', i, room))

-- Skipping comes to an end in the same file, with no loop cut off and the cursor no further back,
-- nor from inside the file past its end, and it stops where neither a blank nor the beginning of a
-- comment is next.
pub skip_whitespace-stops : (l : Lexer) → Ahead l (skip_whitespace l) × Clear (skip_whitespace l)
unfolding skip_whitespace
skip_whitespace-stops l = skip_rounds-stops (fuel_of l) l (omega arith)
