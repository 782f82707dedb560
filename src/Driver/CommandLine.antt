-- ===== src/Driver/CommandLine.antt =====
-- How the command line is read, against a description of it.
use cact.Prelude.{
  ◌≡◌, refl, sym, ap, ◌∙◌, ◌≢◌, ◌⊎◌, inl, inr, Bool, true, false, ◌||◌, Option, some, List, [], ◌∷◌,
  ◌==◌, if◌then◌else◌, ==_iff, Bool-cases, and_true, Bytes, codes,
}
use cact.Driver.{is_operand, same_text, help, input, read_arguments}

-- An argument asks for help.
abbrev pub AsksHelp : List Bytes → Type 0
AsksHelp [] = ⊥
AsksHelp (arg ∷ args) = ((arg ≡ codes "-h") ⊎ (arg ≡ codes "--help")) ⊎ AsksHelp args

-- The code of `-` is 45.
abbrev pub begins_with_dash : Bytes → Bool
begins_with_dash [] = false
begins_with_dash (c ∷ cs) = c == 45

-- The arguments that do not begin with `-`, in their order.
abbrev pub operands : List Bytes → List Bytes
operands [] = []
operands (arg ∷ args) = if begins_with_dash arg then operands args else arg ∷ operands args

-- The last element, or `before` of an empty list.
abbrev pub last_or : Option Bytes → List Bytes → Option Bytes
last_or before [] = before
last_or before (arg ∷ args) = last_or (some arg) args

same_text_means : (a b : Bytes) → same_text a b ≡ true → a ≡ b
unfolding same_text
same_text_means [] [] h = refl
same_text_means (a ∷ as_) (b ∷ bs) h =
    let (e, es) = and_true (a == b) (same_text as_ bs) h in
    ap (λ x. x ∷ as_) ((==_iff a b).0 e) ∙ ap (λ xs. b ∷ xs) (same_text_means as_ bs es)
same_text_means [] (b ∷ bs) h = cc
same_text_means (a ∷ as_) [] h = cc

same_text_refl : (a : Bytes) → same_text a a ≡ true
unfolding same_text
same_text_refl [] = refl
same_text_refl (a ∷ as_) = rw ((==_iff a a).1 refl) (same_text_refl as_)

abbrev is_help : Bytes → Bool
is_help arg = same_text arg (codes "-h") || same_text arg (codes "--help")

either : {a b : Bool} → a ≡ false → (a || b) ≡ true → b ≡ true
either {a = true} e h = cc
either {a = false} e h = h

is_help_means : (arg : Bytes) → is_help arg ≡ true → (arg ≡ codes "-h") ⊎ (arg ≡ codes "--help")
is_help_means arg h = elim (Bool-cases (same_text arg (codes "-h"))) [
  | inl e ↦ inl (same_text_means arg (codes "-h") e)
  | inr e ↦ inr (same_text_means arg (codes "--help") (either e h))
]

neither : {a b : Bool} → (a || b) ≡ false → (a ≢ true) × (b ≢ true)
neither {a = true} h = cc
neither {a = false} {b = true} h = cc
neither {a = false} {b = false} h = (λ e. cc, λ e. cc)

no_help_means :
    (arg : Bytes) → is_help arg ≡ false → ¬ ((arg ≡ codes "-h") ⊎ (arg ≡ codes "--help"))
no_help_means arg h (inl e) = (neither h).0 (ap (same_text arg) (sym e) ∙ same_text_refl arg)
no_help_means arg h (inr e) = (neither h).1 (ap (same_text arg) (sym e) ∙ same_text_refl arg)

last_or-operands :
    (arg : Bytes) (args : List Bytes) (before : Option Bytes)
    → last_or (if is_operand arg then some arg else before) (operands args)
      ≡ last_or before (operands (arg ∷ args))
last_or-operands [] args before = refl
last_or-operands (c ∷ cs) args before = elim (Bool-cases (c == 45)) [
  | inl e ↦ rw e refl
  | inr e ↦ rw e refl
]

-- The loop over the arguments asks for help exactly if one of them is `-h` or `--help`; otherwise
-- the input file is the last argument that does not begin with `-`, or the one from before the loop
-- if there is none. In particular an operand behind `-o` is taken as an input file.
pub read_arguments-last :
    (args : List Bytes) (before : Option Bytes)
    → (AsksHelp args × (read_arguments args before ≡ help))
      ⊎ ((¬ AsksHelp args) × (read_arguments args before ≡ input (last_or before (operands args))))
unfolding read_arguments
read_arguments-last [] before = inr (λ x. x, refl)
read_arguments-last (arg ∷ args) before = elim (Bool-cases (is_help arg)) [
  | inl e ↦ inl (inl (is_help_means arg e), rw e refl)
  | inr e ↦ elim (read_arguments-last args (if is_operand arg then some arg else before)) [
    | inl (asked, r) ↦ inl (inr asked, rw e r)
    | inr (free, r) ↦ inr (
      λ x. elim x [ inl here ↦ no_help_means arg e here | inr later ↦ free later ],
      rw e (r ∙ ap input (last_or-operands arg args before)),
    )
  ]
]
