-- ===== src/Lexer/Rest.antt =====
-- The bytes that a lexer has in front of it.
use cact.Prelude.{
  ℕ, zero, suc, ◌+◌, ◌≤◌, ◌<◌, ◌≡◌, refl, ap, ◌∙◌, true, false, [], ◌∷◌, arith, leb, length, get_or,
  drop, Bytes,
}
use cact.Lexer.{Lexer, peek, peek_next, advance}
use cact.Lexer.Cursor.{advance_inside}

-- What is left of the file behind the cursor.
abbrev pub Rest : Lexer → Bytes → Type 0
Rest l bs = drop l.cursor l.content ≡ bs

-- The first byte, or the one that `peek` gives at the end.
abbrev pub head_or_end : Bytes → ℕ
head_or_end [] = 0
head_or_end (c ∷ bs) = c

-- The lexer one byte further.
abbrev pub behind : Lexer → Lexer
behind l = record l { cursor = l.cursor + 1 }

drop-get_or : (xs : Bytes) (n : ℕ) → get_or xs n 0 ≡ head_or_end (drop n xs)
drop-get_or [] zero = refl
drop-get_or [] (suc n) = refl
drop-get_or (x ∷ xs) zero = refl
drop-get_or (x ∷ xs) (suc n) = drop-get_or xs n

drop-suc : (xs : Bytes) (n : ℕ) (c : ℕ) (bs : Bytes) → drop n xs ≡ c ∷ bs → drop (suc n) xs ≡ bs
drop-suc [] zero c bs e = cc
drop-suc [] (suc n) c bs e = cc
drop-suc (x ∷ xs) zero c bs e = cc e
drop-suc (x ∷ xs) (suc n) c bs e = drop-suc xs n c bs e

plus_one : (n : ℕ) → n + 1 ≡ suc n
plus_one n = omega arith

drop-lt : (xs : Bytes) (n : ℕ) (c : ℕ) (bs : Bytes) → drop n xs ≡ c ∷ bs → n < length xs
drop-lt [] zero c bs e = cc
drop-lt [] (suc n) c bs e = cc
drop-lt (x ∷ xs) zero c bs e = omega arith
drop-lt (x ∷ xs) (suc n) c bs e = omega (arith, drop-lt xs n c bs e)

drop-le : (xs : Bytes) (n : ℕ) → drop n xs ≡ [] → length xs ≤ n
drop-le [] n e = omega arith
drop-le (x ∷ xs) zero e = cc
drop-le (x ∷ xs) (suc n) e = omega (arith, drop-le xs n e)

pub Rest-inside :
    (l : Lexer) (c : ℕ) (bs : Bytes) → Rest l (c ∷ bs) → leb (length l.content) l.cursor ≡ false
Rest-inside l c bs w = ground (arith, drop-lt l.content l.cursor c bs w)

pub Rest-ended : (l : Lexer) → Rest l [] → leb (length l.content) l.cursor ≡ true
Rest-ended l w = ground (arith, drop-le l.content l.cursor w)

pub Rest-behind : (l : Lexer) (c : ℕ) (bs : Bytes) → Rest l (c ∷ bs) → Rest (behind l) bs
Rest-behind l c bs w = rw (plus_one l.cursor) (drop-suc l.content l.cursor c bs w)

pub peek-Rest : (l : Lexer) (bs : Bytes) → Rest l bs → peek l ≡ head_or_end bs
unfolding peek
peek-Rest l [] w = rw (Rest-ended l w) refl
peek-Rest l (c ∷ bs) w =
    rw (Rest-inside l c bs w) (drop-get_or l.content l.cursor ∙ ap head_or_end w)

pub peek_next-Rest :
    (l : Lexer) (c : ℕ) (bs : Bytes) → Rest l (c ∷ bs) → peek_next l ≡ head_or_end bs
unfolding peek_next peek
peek_next-Rest l c bs w = peek-Rest (behind l) bs (Rest-behind l c bs w)

pub advance-Rest : (l : Lexer) (c : ℕ) (bs : Bytes) → Rest l (c ∷ bs) → advance l ≡ behind l
advance-Rest l c bs w = advance_inside l (Rest-inside l c bs w)
