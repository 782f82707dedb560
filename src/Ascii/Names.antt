-- ===== src/Ascii/Names.antt =====
-- The interner of the concrete platform tells names apart.
use cact.Prelude.{
  ℕ, suc, ◌+◌, ◌≤◌, ◌≡◌, refl, sym, ap, ◌∙◌, inl, inr, true, Option, none, some, List, [], ◌∷◌,
  ◌++◌, arith, ◌==◌, ==_iff, Bool-cases, and_true, length, Bytes,
}
use cact.Ascii.{position, ascii}
use cact.Driver.{same_text}
use cact.Platform.Laws.{InternLaws}

same_text_self : (a : Bytes) → same_text a a ≡ true
unfolding same_text
same_text_self [] = refl
same_text_self (x ∷ a) = rw ((==_iff x x).1 refl) (same_text_self a)

same_text-≡ : (a b : Bytes) → same_text a b ≡ true → a ≡ b
unfolding same_text
same_text-≡ [] [] h = refl
same_text-≡ [] (y ∷ b) h = cc
same_text-≡ (x ∷ a) [] h = cc
same_text-≡ (x ∷ a) (y ∷ b) h =
    let (hx, ha) = and_true (x == y) (same_text a b) h in
    let same_head : x ≡ y = (==_iff x y).0 hx in
    let same_tail = same_text-≡ a b ha in cc (same_head, same_tail)

position-le : (name : Bytes) (i x : ℕ) (names : List Bytes) → position i name names ≡ some x → i ≤ x
position-le name i x [] e = cc
position-le name i x (y ∷ names) e = elim (Bool-cases (same_text y name)) [
  | inl h ↦ let e' : some i ≡ some x = rw h at e in let k : i ≡ x = cc e' in omega (arith, k)
  | inr h ↦
      let e' : position (i + 1) name names ≡ some x = rw h at e in
      omega (arith, position-le name (i + 1) x names e')
]

position-append :
    (name : Bytes) (i x : ℕ) (names more : List Bytes)
    → position i name names ≡ some x
    → position i name (names ++ more) ≡ some x
position-append name i x [] more e = cc
position-append name i x (y ∷ names) more e = elim (Bool-cases (same_text y name)) [
  | inl h ↦ rw h (rw h at e)
  | inr h ↦ rw h (position-append name (i + 1) x names more (rw h at e))
]

position-new :
    (name : Bytes) (i : ℕ) (names : List Bytes)
    → position i name names ≡ none
    → position i name (names ++ name ∷ []) ≡ some (i + length names)
position-new name i [] e = rw (same_text_self name) (let k : i ≡ i + 0 = omega arith in ap some k)
position-new name i (y ∷ names) e = elim (Bool-cases (same_text y name)) [
  | inl h ↦ let e' : some i ≡ none = rw h at e in cc e'
  | inr h ↦
      let k : i + 1 + length names ≡ i + suc (length names) = omega arith in
      rw h (position-new name (i + 1) names (rw h at e) ∙ ap some k)
]

position_one :
    (a b : Bytes) (i x : ℕ) (names : List Bytes)
    → position i a names ≡ some x
    → position i b names ≡ some x
    → a ≡ b
position_one a b i x [] e e' = cc
position_one a b i x (y ∷ names) e e' = elim (Bool-cases (same_text y a)) [
  | inl h ↦ elim (Bool-cases (same_text y b)) [
    | inl h' ↦ sym (same_text-≡ y a h) ∙ same_text-≡ y b h'
    | inr h' ↦
        let f : some i ≡ some x = rw h at e in
        let k : i ≡ x = cc f in
        absurd (omega (arith, k, position-le b (i + 1) x names (rw h' at e')))
  ]
  | inr h ↦ elim (Bool-cases (same_text y b)) [
    | inl h' ↦
        let f : some i ≡ some x = rw h' at e' in
        let k : i ≡ x = cc f in absurd (omega (arith, k, position-le a (i + 1) x names (rw h at e)))
    | inr h' ↦ position_one a b (i + 1) x names (rw h at e) (rw h' at e')
  ]
]

-- What `intern` gives, by whether the name is known.
abbrev looked_up : List Bytes → Bytes → Option ℕ → List Bytes × ℕ
looked_up names name (some i) = (names, i)
looked_up names name none = (names ++ name ∷ [], length names)

interned_there :
    (names : List Bytes) (name : Bytes) (o : Option ℕ)
    → position 0 name names ≡ o
    → position 0 name (looked_up names name o).0 ≡ some (looked_up names name o).1
interned_there names name (some i) e = e
interned_there names name none e =
    let k : 0 + length names ≡ length names = omega arith in position-new name 0 names e ∙ ap some k

kept_there :
    (names : List Bytes) (name added : Bytes) (x : ℕ) (o : Option ℕ)
    → position 0 name names ≡ some x
    → position 0 name (looked_up names added o).0 ≡ some x
kept_there names name added x (some i) e = e
kept_there names name added x none e = position-append name 0 x names (added ∷ []) e

same_there :
    (names : List Bytes) (name : Bytes) (x : ℕ) (o : Option ℕ)
    → o ≡ some x
    → (looked_up names name o).1 ≡ x
same_there names name x (some i) e = cc e
same_there names name x none e = cc e

pub ascii_names : InternLaws ascii
ascii_names = record {
  Holds = λ names name x. position 0 name names ≡ some x;
  interned = λ names name. interned_there names name (position 0 name names) refl;
  kept = λ names name added x e. kept_there names name added x (position 0 added names) e;
  same_id = λ names name x e. same_there names name x (position 0 name names) e;
  one_name = λ names a b x e e'. position_one a b 0 x names e e';
}
