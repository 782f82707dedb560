-- ===== src/Lexer/Grammar/Blocks.antt =====
-- src/lexer.c, `skip_whitespace`: the bytes that the loop of a block comment goes over.
use cact.Prelude.{
  ℕ, zero, suc, ◌+◌, ◌≡◌, sym, ap, ◌∙◌, inl, inr, true, false, arith, ◌==◌, leb→lt, ==_iff,
  Bool-cases, and_true, Bytes,
}
use cact.Lexer.{Lexer}
use cact.Lexer.Comments.{byte_inside}
use cact.Lexer.Cursor.{Room}
use cact.Lexer.Grammar.{
  byte_at, closes, Unclosed, peek-byte_at, peek_next-byte_at, advance_on, advance_twice,
}
use cact.Lexer.Trivia.{Flow, again, stop, block_comment}

-- How the loop of a block comment ends, from `l` behind its `/*`.
abbrev pub Commented : Lexer → Flow → Type 0
Commented l (again r) =
    (j : ℕ) × Unclosed l.content l.cursor j
    × (closes l.content j ≡ true)
    × (r ≡ record l { cursor = j + 2 })
Commented l (stop r) = Unclosed l.content l.cursor r.cursor × (byte_at l.content r.cursor ≡ 0)

Unclosed-here : (bytes : Bytes) (i : ℕ) → Unclosed bytes i i
Unclosed-here bytes i = (omega arith, λ m lo hi. absurd (omega (arith, lo, hi)))

Unclosed-before :
    (bytes : Bytes) (i j : ℕ)
    → (byte_at bytes i == 0) ≡ false
    → closes bytes i ≡ false
    → Unclosed bytes (i + 1) j
    → Unclosed bytes i j
Unclosed-before bytes i j e e' (onward, unclosed) = (
  omega (arith, onward),
  λ m lo hi. elim (Bool-cases (i == m)) [
    | inl same ↦ rw (sym ((==_iff i m).0 same)) (e, e')
    | inr apart ↦ unclosed m (ground arith) hi
  ],
)

Commented-before :
    (l : Lexer) (w : Flow)
    → (byte_at l.content l.cursor == 0) ≡ false
    → closes l.content l.cursor ≡ false
    → Commented (record l { cursor = l.cursor + 1 }) w
    → Commented l w
Commented-before l (again r) e e' (j, unclosed, c, same) =
    (j, Unclosed-before l.content l.cursor j e e' unclosed, c, same)
Commented-before l (stop r) e e' (unclosed, z) =
    (Unclosed-before l.content l.cursor r.cursor e e' unclosed, z)

closed_bytes :
    (bytes : Bytes) (i : ℕ)
    → closes bytes i ≡ true
    → ((byte_at bytes i == 0) ≡ false) × ((byte_at bytes (i + 1) == 0) ≡ false)
closed_bytes bytes i e =
    let (a, b) = and_true (byte_at bytes i == 42) (byte_at bytes (i + 1) == 47) e in
    (
      ap (λ c. c == 0) ((==_iff (byte_at bytes i) 42).0 a),
      ap (λ c. c == 0) ((==_iff (byte_at bytes (i + 1)) 47).0 b),
    )

pub block_comment-Commented :
    (fuel : ℕ) (l : Lexer) → Room fuel l → Commented l (block_comment fuel l)
unfolding block_comment
block_comment-Commented zero l room = absurd (omega (arith, room))
block_comment-Commented (suc fuel) l room =
    rw (peek-byte_at l, peek_next-byte_at l)
      (elim (Bool-cases (byte_at l.content l.cursor == 0)) [
        | inl e ↦ rw e (Unclosed-here l.content l.cursor, (==_iff _ 0).0 e)
        | inr e ↦ rw e (elim (Bool-cases (closes l.content l.cursor)) [
          | inl c ↦
              let (first, second) = closed_bytes l.content l.cursor c in
              rw c (l.cursor, Unclosed-here l.content l.cursor, c, advance_twice l first second)
          | inr c ↦
              rw (c, advance_on l e)
                (Commented-before l (block_comment fuel (record l { cursor = l.cursor + 1 })) e c (
                  block_comment-Commented fuel (record l { cursor = l.cursor + 1 })
                    (omega (
                      arith,
                      room,
                      leb→lt _ _ (byte_inside l (ap (λ c. c == 0) (peek-byte_at l) ∙ e)),
                    ))))
        ])
      ])
