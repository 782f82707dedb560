-- ===== src/Parser/Halting/Stmt/Simple.antt =====
-- Statements without statements inside are parsed to their end.
use cact.Prelude.{
  ℕ, suc, ◌+◌, ◌≡◌, refl, inl, inr, Bool, true, false, not, ◌&&◌, ◌||◌, none, List, ◌∷◌, arith,
  if◌then◌else◌, Bool-cases,
}
use cact.Ast.{JumpKind, Base, Node, unwritten, test_null}
use cact.Parser.Expr.{parse_expr}
use cact.Parser.Halting.{
  cost, done, Done-bind, Done-mono, Done-lift, Done-if, At, At-mono, Ends, Eats,
}
use cact.Parser.Halting.Checks.{test_null-Halts, assign-Ends, return-Ends}
use cact.Parser.Halting.Decl.Starts.{type_kinds, decl_starts, is_null-token_to_type}
use cact.Parser.Halting.Expr.{Fuel, parse_expr-Eats, parse_expr-Ends}
use cact.Parser.Halting.Expr.Starts.{expr_starts}
use cact.Parser.Halting.Steps.{parser_error-Ends, consume-Ends, on_match-Done}
use cact.Parser.Monad.{Parser, pure, lift}
use cact.Parser.Stmt.{
  stmt_starts, parse_return, parse_jump, assign_to, finish_expr_stmt, parse_expr_stmt,
}
use cact.Parser.Tokens.{mem_kind, parser_error, consume, on_match, token_to_type, checked}
use cact.Platform.{Platform}
use cact.Platform.Laws.{CharLaws}
use cact.Sema.{sema_analyze_assign, sema_analyze_return}
use cact.Token.{
  TokenKind, ident, lit_int, lit_float, lit_double, kw_const, kw_if, kw_while, kw_break,
  kw_continue, kw_return, kw_true, kw_false, plus, minus, l_paren, l_brace, assign, semicolon,
  log_not, same_kind,
}
use cact.Types.{TypeStore, is_null}
use cact.Types.Shape.{IsReady}

-- The kinds that a statement begins with, in the order of the tests.
abbrev pub first_kinds : List TokenKind
first_kinds = kw_if ∷ kw_while ∷ kw_return ∷ kw_break ∷ kw_continue ∷ l_brace ∷ expr_starts

pub starts_first : (k : TokenKind) → mem_kind k stmt_starts ≡ true → mem_kind k first_kinds ≡ true
starts_first kw_if h = refl
starts_first kw_while h = refl
starts_first kw_return h = refl
starts_first kw_break h = refl
starts_first kw_continue h = refl
starts_first l_brace h = refl
starts_first ident h = refl
starts_first l_paren h = refl
starts_first lit_int h = refl
starts_first lit_float h = refl
starts_first lit_double h = refl
starts_first kw_true h = refl
starts_first kw_false h = refl
starts_first plus h = refl
starts_first minus h = refl
starts_first log_not h = refl
starts_first _ h = cc

pub or_false : (a b : Bool) → (a || b) ≡ false → b ≡ false
or_false true b h = cc
or_false false b h = h

pub one_of : (a b : Bool) → a ≡ false → (not a && not b) ≡ false → b ≡ true
one_of a true e h = refl
one_of true false e h = cc
one_of false false e h = cc

module _ ⦃env : Platform⦄ (laws : CharLaws env) (n : ℕ) (s : TypeStore) where
  pub return_end :
      (f c : ℕ) (p : Parser) → At n s c p → Fuel laws n s 4 f c → Ends n s c (parse_return f p)
  unfolding parse_return
  return_end f c p w h =
      let base : Base = record { tok = p.prev; node_type = none } in
      Done-bind ((if not (same_kind p.curr.kind semicolon) then parse_expr f else pure unwritten) p)
        _
        (Done-if (not (same_kind p.curr.kind semicolon)) _ _ p
          (λ _. parse_expr-Ends laws n s f c p w h) (λ _. done w))
        λ x q v.
          Done-bind (consume semicolon "Expect ';'" q) _ (consume-Ends laws n s _ _ c q v)
            λ _ p₁ w₁.
              Done-bind (checked (λ ctx. sema_analyze_return ctx p₁.sema base x) p₁) _
                (return-Ends n s p₁.sema base x c p₁ w₁) λ ty p₂ w₂. done w₂

  pub jump_end :
      (kind : JumpKind) (c : ℕ) (p : Parser) → At n s c p → Ends n s c (parse_jump kind p)
  unfolding parse_jump
  jump_end kind c p w =
      Done-bind (consume semicolon "Expect ';'" p) _ (consume-Ends laws n s _ _ c p w)
        λ _ q v. done v

  pub assign_to_end :
      (x y : Node) (b : Bool) (c : ℕ) (p : Parser) → At n s c p → Ends n s c (assign_to x y b p)
  unfolding assign_to
  assign_to_end x y true c p w =
      Done-bind (parser_error "Expect expression after '='" p) _
        (parser_error-Ends laws n s _ c p w) λ _ q v. done v
  assign_to_end x y false c p w =
      let base : Base = record { tok = p.prev; node_type = none } in
      Done-bind (checked (λ ctx. sema_analyze_assign ctx base x y) p) _
        (assign-Ends n s base x y c p w) λ ty q v. done v

  pub finish_end :
      (f : ℕ) (x : Node) (b : Bool) (c : ℕ) (p : Parser)
      → At n s c p
      → Fuel laws n s 4 f c
      → Ends n s c (finish_expr_stmt f x b p)
  unfolding finish_expr_stmt
  finish_end f x true c p w h = done w
  finish_end f x false c p w h =
      Done-bind {R = λ _ r. At n s c r} (on_match assign _ _ p) _
        (on_match-Done laws n s assign _ _ c p w refl
          (λ q v _.
            Done-bind (parse_expr f q) _ (parse_expr-Ends laws n s f (suc c) q v (omega arith))
              λ y p₁ w₁.
                Done-bind (lift (test_null y) p₁) _
                  (Done-lift {R = λ _ r. At n s (suc c) r} (test_null y) p₁ (test_null-Halts y)
                    (λ _. w₁))
                  λ absent p₂ w₂.
                    Done-mono _ (assign_to_end x y absent (suc c) p₂ w₂)
                      λ _ t. At-mono (suc c) c (omega arith))
          (λ _. done w))
        λ whole q v.
          Done-bind (consume semicolon "Expect ';'" q) _ (consume-Ends laws n s _ _ c q v)
            λ _ r u. done u

  pub expr_stmt-Eats :
      (f c : ℕ) (p : Parser)
      → At n s c p
      → Fuel laws n s 4 f c
      → Eats n s expr_starts c (parse_expr_stmt f) p
  unfolding parse_expr_stmt
  expr_stmt-Eats f c p w h =
      Done-bind (parse_expr f p) _ (parse_expr-Eats laws n s f c p w h) λ x q v.
        Done-bind (lift (test_null x) q) _
          (Done-lift {R = λ _ r. At n s (cost (mem_kind p.curr.kind expr_starts) + c) r}
            (test_null x) q (test_null-Halts x) (λ _. v))
          λ absent r u. finish_end f x absent _ r u (omega arith)

  pub decl_first :
      (t : TypeStore) (k : TokenKind)
      → IsReady t
      → (not (is_null (token_to_type t k)) || same_kind k kw_const) ≡ true
      → mem_kind k decl_starts ≡ true
  decl_first t k r e = elim (Bool-cases (same_kind k kw_const)) [
    | inl h ↦ rw h refl
    | inr h ↦ elim (Bool-cases (mem_kind k type_kinds)) [
      | inl m ↦ rw (h, m) refl
      | inr m ↦ let e' : false ≡ true = rw (is_null-token_to_type t k r, h, m) at e in cc e'
    ]
  ]
