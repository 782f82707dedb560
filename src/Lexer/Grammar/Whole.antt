-- ===== src/Lexer/Grammar/Whole.antt =====
-- src/lexer.c, `skip_whitespace`: the bytes that a round, and all rounds, go over.
use cact.Prelude.{
  ℕ, zero, suc, ◌+◌, ◌≡◌, refl, sym, ap, ◌∙◌, subst, inl, inr, true, false, arith, ◌==◌, ==_iff,
  Bool-cases, false-ne-true,
}
use cact.Lexer.{Lexer, content_at, peek, peek_next, fuel_of, skip_while}
use cact.Lexer.Comments.{Ahead}
use cact.Lexer.Cursor.{Munched, skip_while-Munched}
use cact.Lexer.Grammar.{
  byte_at, ends_line, Trivia, skip_nothing, skip_blank, skip_line, skip_block, skip_cut_block,
  peek-byte_at, peek_next-byte_at, advance_on, advance_twice,
}
use cact.Lexer.Grammar.Blocks.{Commented, block_comment-Commented}
use cact.Lexer.Skipping.{blank_byte, Clear, blank-nonzero, in_line, skip_whitespace-stops}
use cact.Lexer.Trivia.{
  is_blank, Flow, again, stop, block_comment, skip_round, skip_rounds, skip_whitespace,
}

-- What a round from `l` leaves to be skipped, with what it skipped, is trivia.
abbrev Covers : Lexer → Flow → Type 0
Covers l (again r) =
    (r.content ≡ l.content) × ((k : ℕ) → Trivia l.content r.cursor k → Trivia l.content l.cursor k)
Covers l (stop r) = Trivia l.content l.cursor r.cursor

goes_on : (c : ℕ) → in_line c ≡ true → ends_line c ≡ false
goes_on c h = elim (Bool-cases (c == 10)) [
  | inl e ↦ cc (h, ap in_line ((==_iff c 10).0 e))
  | inr e ↦ elim (Bool-cases (c == 0)) [
    | inl e' ↦ cc (h, ap in_line ((==_iff c 0).0 e'))
    | inr e' ↦ rw (e, e') refl
  ]
]

stops_here : (c : ℕ) → in_line c ≡ false → ends_line c ≡ true
stops_here c h = elim (Bool-cases (c == 10)) [
  | inl e ↦ rw e refl
  | inr e ↦ elim (Bool-cases (c == 0)) [
    | inl e' ↦ rw (e, e') refl
    | inr e' ↦ absurd (false-ne-true (sym h ∙ rw (e, e') refl))
  ]
]

line-Covers :
    (l r : Lexer)
    → byte_at l.content l.cursor ≡ 47
    → byte_at l.content (l.cursor + 1) ≡ 47
    → Munched in_line l r
    → Covers l (again r)
line-Covers l r a b m = (
  m.same_content,
  λ k t.
      skip_line a b (m.forward, λ i lo hi. goes_on (content_at l i) (m.passed i lo hi))
        (stops_here (byte_at l.content r.cursor) (
          ap (λ bytes. in_line (byte_at bytes r.cursor)) (sym m.same_content)
          ∙ ap in_line (sym (peek-byte_at r))
          ∙ m.stopped))
        t,
)

block-Covers :
    (l : Lexer) (w : Flow)
    → byte_at l.content l.cursor ≡ 47
    → byte_at l.content (l.cursor + 1) ≡ 42
    → Commented (record l { cursor = l.cursor + 2 }) w
    → Covers l w
block-Covers l (again r) a b (j, u, c, same) = (
  ap (λ x. x.content) same,
  λ k t. skip_block a b u c (subst (λ n. Trivia l.content n k) (ap (λ x. x.cursor) same) t),
)
block-Covers l (stop r) a b (u, z) = skip_cut_block a b u z

skip_round-Covers : (l : Lexer) → Covers l (skip_round l)
unfolding skip_round
skip_round-Covers l = elim (Bool-cases (is_blank (peek l))) [
  | inl e ↦
      rw (e, advance_on l (ap (λ c. c == 0) (sym (peek-byte_at l)) ∙ blank-nonzero (peek l) e))
        (refl, λ k t. skip_blank (ap blank_byte (sym (peek-byte_at l)) ∙ e) t)
  | inr e ↦ rw e (elim (Bool-cases (peek l == b'/')) [
    | inr plain ↦ rw plain skip_nothing
    | inl starts ↦
        let a : byte_at l.content l.cursor ≡ 47 =
          sym (peek-byte_at l) ∙ (==_iff (peek l) b'/').0 starts in
        rw starts (elim (Bool-cases (peek_next l == b'/')) [
          | inl two ↦ rw two (
              line-Covers l (skip_while in_line l) a
                (sym (peek_next-byte_at l) ∙ (==_iff (peek_next l) b'/').0 two)
                (skip_while-Munched in_line refl l))
          | inr one ↦ rw one (elim (Bool-cases (peek_next l == b'*')) [
            | inl opens ↦
                let b : byte_at l.content (l.cursor + 1) ≡ 42 =
                  sym (peek_next-byte_at l) ∙ (==_iff (peek_next l) b'*').0 opens in
                rw (opens, advance_twice l (ap (λ c. c == 0) a) (ap (λ c. c == 0) b))
                  (block-Covers l (block_comment (fuel_of l) (record l { cursor = l.cursor + 2 })) a
                    b
                    (block_comment-Commented (fuel_of l) (record l { cursor = l.cursor + 2 })
                      (omega arith)))
            | inr neither ↦ rw neither skip_nothing
          ])
        ])
  ])
]

rounds-covered :
    (fuel : ℕ) (l : Lexer) (w : Flow)
    → Covers l w
    → ((r : Lexer) → Trivia r.content r.cursor ((skip_rounds fuel r).cursor))
    → Trivia l.content l.cursor
        ((elim w as (λ _. Lexer) [ again l' ↦ skip_rounds fuel l' | stop l' ↦ l' ]).cursor)
rounds-covered fuel l (again r) (same, h) k =
    h _ (subst (λ bytes. Trivia bytes r.cursor ((skip_rounds fuel r).cursor)) same (k r))
rounds-covered fuel l (stop r) h k = h

skip_rounds-Trivia :
    (fuel : ℕ) (l : Lexer) → Trivia l.content l.cursor ((skip_rounds fuel l).cursor)
unfolding skip_rounds
skip_rounds-Trivia zero l = skip_nothing
skip_rounds-Trivia (suc fuel) l =
    rounds-covered fuel l (skip_round l) (skip_round-Covers l) (skip_rounds-Trivia fuel)

-- Skipping comes to an end in the same file, with no loop cut off and the cursor no further back,
-- nor from inside the file past its end; what it goes over are blanks and comments, each comment up
-- to its own end; and it stops where neither a blank nor the beginning of a comment is next.
pub skip_whitespace-Trivia :
    (l : Lexer)
    → let r = skip_whitespace l in Ahead l r × Trivia l.content l.cursor r.cursor × Clear r
unfolding skip_whitespace
skip_whitespace-Trivia l =
    let (ahead, clear) = skip_whitespace-stops l in (ahead, skip_rounds-Trivia (fuel_of l) l, clear)
