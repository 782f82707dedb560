-- ===== src/Parser/Halting/Expr/Starts.antt =====
-- What an expression begins with, and the lookups in types that come to an end.
use cact.Prelude.{ℕ, ◌≡◌, refl, false, Option, none, some, List, [], ◌∷◌}
use cact.Ast.{SemaSymbol, Node, null, indeterminate}
use cact.Outcome.{Outcome, fault, out_of_fuel, ok, Halts}
use cact.Parser.Expr.{get_prec, level_from, call_type, element_type, negated_type}
use cact.Platform.{Platform}
use cact.Token.{
  TokenKind, eof, ident, lit_int, lit_float, lit_double, kw_true, kw_false, plus, minus, l_paren,
  log_not, same_kind,
}
use cact.Types.{TypePtr, TypeObject, primitive, array, func, TypeStore, deref}
use cact.Types.Ranked.{deref-Halts}

-- The kinds that an expression may begin with.
abbrev pub primary_starts : List TokenKind
primary_starts = lit_int ∷ lit_float ∷ lit_double ∷ kw_true ∷ kw_false ∷ l_paren ∷ ident ∷ []

abbrev pub expr_starts : List TokenKind
expr_starts = plus ∷ minus ∷ log_not ∷ primary_starts

pub level_from-eof :
    (prec : ℕ) (k : TokenKind) {l : ℕ}
    → level_from prec (get_prec k) ≡ some l
    → same_kind k eof ≡ false
unfolding get_prec
level_from-eof prec eof h = cc
level_from-eof prec _ h = refl

module _ ⦃env : Platform⦄ where
  pub call_type-Halts : (s : TypeStore) (symbol : Option SemaSymbol) → Halts (call_type s symbol)
  unfolding call_type
  call_type-Halts s none = tt
  call_type-Halts s (some symbol) = go (deref s.heap symbol.ty) (deref-Halts s.heap symbol.ty)
    where
      go :
          (o : Outcome TypeObject)
          → Halts o
          → Halts (elim o as (λ _. Outcome TypePtr) [
            | ok (func ret params size align) ↦ ok ret
            | ok _ ↦ ok s.ty_int
            | fault ↦ fault
            | out_of_fuel ↦ out_of_fuel
          ])
      go (ok (func _ _ _ _)) h = tt
      go (ok (array _ _ _ _)) h = tt
      go (ok (primitive _ _ _)) h = tt
      go fault h = tt
      go out_of_fuel h = h

  pub element_type-Halts : (s : TypeStore) (p : TypePtr) → Halts (element_type s p)
  unfolding element_type
  element_type-Halts s none = tt
  element_type-Halts s (some a) = go (deref s.heap (some a)) (deref-Halts s.heap (some a))
    where
      go :
          (o : Outcome TypeObject)
          → Halts o
          → Halts (elim o as (λ _. Outcome (Option TypePtr)) [
            | ok (array base len size align) ↦ ok (some base)
            | ok _ ↦ ok none
            | fault ↦ fault
            | out_of_fuel ↦ out_of_fuel
          ])
      go (ok (func _ _ _ _)) h = tt
      go (ok (array _ _ _ _)) h = tt
      go (ok (primitive _ _ _)) h = tt
      go fault h = tt
      go out_of_fuel h = h

  pub negated_type-Halts : (x : Node) → Halts (negated_type x)
  unfolding negated_type
  negated_type-Halts null = tt
  negated_type-Halts indeterminate = tt
  negated_type-Halts _ = tt
