-- ===== src/Lexer/Grammar.antt =====
-- src/lexer.c, `skip_whitespace`: what it skips, against a grammar of blanks and comments.
pub mod Blocks
pub mod Whole
use cact.Prelude.{
  ℕ, zero, suc, ◌+◌, ◌≤◌, ◌<◌, ◌≡◌, refl, sym, ap, ◌∙◌, inl, inr, Bool, true, false, ◌&&◌, ◌||◌, [],
  ◌∷◌, arith, leb, ◌==◌, leb→le, Bool-cases, length, get_or, Bytes,
}
use cact.Lexer.{Lexer, peek, peek_next, advance}
use cact.Lexer.Comments.{byte_inside}
use cact.Lexer.Cursor.{advance_inside}
use cact.Lexer.Skipping.{blank_byte}

-- The byte at a place; 0 behind the end.
abbrev pub byte_at : Bytes → ℕ → ℕ
byte_at bytes i = get_or bytes i 0

abbrev pub ends_line : ℕ → Bool
ends_line c = c == 10 || c == 0

-- `*/` at a place.
abbrev pub closes : Bytes → ℕ → Bool
closes bytes i = byte_at bytes i == 42 && byte_at bytes (i + 1) == 47

-- From `i` up to `j` no line ends.
abbrev pub OneLine : Bytes → ℕ → ℕ → Type 0
OneLine bytes i j = (i ≤ j) × ((m : ℕ) → i ≤ m → m < j → ends_line (byte_at bytes m) ≡ false)

-- From `i` up to `j` neither a byte 0 nor a `*/` begins.
abbrev pub Unclosed : Bytes → ℕ → ℕ → Type 0
Unclosed bytes i j =
    (i ≤ j)
    × ((m : ℕ) → i ≤ m → m < j → ((byte_at bytes m == 0) ≡ false) × (closes bytes m ≡ false))

-- The bytes from one place up to another are blanks, line comments up to the end of their line, and
-- block comments up to the first `*/`; the last block comment may lack it, up to a byte 0 or the end.
pub data Trivia (bytes : Bytes) : ℕ → ℕ → Type 0 where
  skip_nothing : {i : ℕ} → Trivia bytes i i
  skip_blank :
      {i k : ℕ} → blank_byte (byte_at bytes i) ≡ true → Trivia bytes (i + 1) k → Trivia bytes i k
  skip_line :
      {i j k : ℕ}
      → byte_at bytes i ≡ 47
      → byte_at bytes (i + 1) ≡ 47
      → OneLine bytes i j
      → ends_line (byte_at bytes j) ≡ true
      → Trivia bytes j k
      → Trivia bytes i k
  skip_block :
      {i j k : ℕ}
      → byte_at bytes i ≡ 47
      → byte_at bytes (i + 1) ≡ 42
      → Unclosed bytes (i + 2) j
      → closes bytes j ≡ true
      → Trivia bytes (j + 2) k
      → Trivia bytes i k
  skip_cut_block :
      {i j : ℕ}
      → byte_at bytes i ≡ 47
      → byte_at bytes (i + 1) ≡ 42
      → Unclosed bytes (i + 2) j
      → byte_at bytes j ≡ 0
      → Trivia bytes i j

get_or-past : (bytes : Bytes) (i : ℕ) → length bytes ≤ i → get_or bytes i 0 ≡ 0
get_or-past [] i h = refl
get_or-past (b ∷ bs) zero h = absurd (omega (arith, h))
get_or-past (b ∷ bs) (suc i) h = get_or-past bs i (omega (arith, h))

pub peek-byte_at : (l : Lexer) → peek l ≡ byte_at l.content l.cursor
unfolding peek
peek-byte_at l = elim (Bool-cases (leb (length l.content) l.cursor)) [
  | inl e ↦ rw e (sym (get_or-past l.content l.cursor (leb→le _ _ e)))
  | inr e ↦ rw e refl
]

pub peek_next-byte_at : (l : Lexer) → peek_next l ≡ byte_at l.content (l.cursor + 1)
unfolding peek_next
peek_next-byte_at l = elim (Bool-cases (leb (length l.content) (l.cursor + 1))) [
  | inl e ↦ rw e (sym (get_or-past l.content (l.cursor + 1) (leb→le _ _ e)))
  | inr e ↦ rw e refl
]

pub advance_on :
    (l : Lexer)
    → (byte_at l.content l.cursor == 0) ≡ false
    → advance l ≡ record l { cursor = l.cursor + 1 }
advance_on l e = advance_inside l (byte_inside l (ap (λ c. c == 0) (peek-byte_at l) ∙ e))

pub advance_twice :
    (l : Lexer)
    → (byte_at l.content l.cursor == 0) ≡ false
    → (byte_at l.content (l.cursor + 1) == 0) ≡ false
    → advance (advance l) ≡ record l { cursor = l.cursor + 2 }
advance_twice l e e' =
    ap advance (advance_on l e)
    ∙ advance_on (record l { cursor = l.cursor + 1 }) e'
    ∙ ap (λ n. record l { cursor = n }) (omega arith)
