-- ===== src/Parser/Halting/Expr.antt =====
-- Expressions are parsed to their end: each call takes a unit of fuel, and the calls between two
-- tokens are fewer than 32.
pub mod Starts
use cact.Prelude.{
  ℕ, zero, suc, ◌+◌, ◌*◌, ◌≤◌, ◌≡◌, refl, true, false, Option, none, some, [], ◌∷◌, arith,
  if◌then◌else◌,
}
use cact.Ast.{Base, Node, Nodes, no_nodes, push_node, type_of_node}
use cact.Outcome.{Outcome, fault, ok}
use cact.Parser.Expr.{
  get_prec, get_binary_kind, level_from, on_level, int_literal, float_literal, double_literal,
  bool_literal, is_undefined, call_type, element_type, subscript_type, negated_type, parse_primary,
  parse_parens, parse_ident, parse_call, parse_args, parse_variable, parse_subscripts, parse_unary,
  parse_binary, parse_operators, parse_assign, parse_expr,
}
use cact.Parser.Halting.{
  Done, done, faulted, Done-bind, Done-mono, Done-lift, Done-if, At, At-mono, Ends, Eats, Eats-Ends,
}
use cact.Parser.Halting.Checks.{type_of_node-Halts, binary-Ends, assign-Ends}
use cact.Parser.Halting.Expr.Starts.{
  primary_starts, expr_starts, level_from-eof, call_type-Halts, element_type-Halts,
  negated_type-Halts,
}
use cact.Parser.Halting.Steps.{
  advance_token-Eats, parser_error-Ends, consume-Ends, on_match-Done, on_match-Eats, when-Ends,
}
use cact.Parser.Monad.{Parser, Parse, pure, lift, when}
use cact.Parser.Tokens.{advance_token, parser_error, consume, checked}
use cact.Platform.{Platform}
use cact.Platform.Laws.{CharLaws}
use cact.Sema.{sema_lookup, sema_analyze_binary, sema_analyze_assign}
use cact.Token.{
  ident, lit_int, lit_float, lit_double, kw_true, kw_false, plus, minus, l_paren, r_paren,
  l_bracket, r_bracket, assign, comma, log_not, same_kind,
}
use cact.Token.Value.{value_int, value_float, value_double}
use cact.Types.{TypePtr, TypeStore}

module _ ⦃env : Platform⦄ (laws : CharLaws env) (n : ℕ) (s : TypeStore) where
  -- The read of a value does nothing else.
  read_value :
      {A : Type 0} (c : ℕ) (p : Parser) (v : Option A) (node : A → Node)
      → At n s c p
      → Ends n s c
          (elim v as (λ _. Outcome (Node × Parser)) [ none ↦ fault | some i ↦ ok (node i, p) ])
  read_value c p none node w = faulted
  read_value c p (some i) node w = done w

  subscript_type-Ends :
      (t : Option TypePtr) (c : ℕ) (p : Parser) → At n s c p → Ends n s c (subscript_type t p)
  subscript_type-Ends (some t) c p w = done w
  subscript_type-Ends none c p w =
      Done-bind (parser_error "Subscripted value is not an array" p) _
        (parser_error-Ends laws n s _ c p w) λ _ q w'. done w'

  on_level-Done :
      {A : Type 0} {R : A → Parser → Type 0} (l : Option ℕ) (go : ℕ → Parse A) (end : Parse A)
      (p : Parser)
      → ((current : ℕ) → l ≡ some current → Done R (go current p))
      → Done R (end p)
      → Done R (on_level l go end p)
  on_level-Done none go end p hg he = he
  on_level-Done (some current) go end p hg he = hg current refl

  -- Fuel for what is left of the parse when `c` tokens are used up, at a level of the grammar.
  abbrev pub Fuel : ℕ → ℕ → ℕ → Type 0
  Fuel level f c = 32 * n + level ≤ f + 32 * c

  mutual
    unfolding parse_primary

    primary :
        (f c : ℕ) (p : Parser)
        → At n s c p
        → Fuel 1 f c
        → Eats n s primary_starts c (parse_primary f) p
    primary zero c p w h = absurd (omega (arith, w.room))
    primary (suc f) c p w h =
        on_match-Eats laws n s (lit_float ∷ lit_double ∷ kw_true ∷ kw_false ∷ l_paren ∷ ident ∷ [])
          lit_int int_literal _ c p w refl
          (λ q v. read_value (suc c) q (value_int q.prev.value) _ v)
          λ _.
            on_match-Eats laws n s (lit_double ∷ kw_true ∷ kw_false ∷ l_paren ∷ ident ∷ [])
              lit_float float_literal _ c p w refl
              (λ q v. read_value (suc c) q (value_float q.prev.value) _ v)
              λ _.
                on_match-Eats laws n s (kw_true ∷ kw_false ∷ l_paren ∷ ident ∷ []) lit_double
                  double_literal _ c p w refl
                  (λ q v. read_value (suc c) q (value_double q.prev.value) _ v)
                  λ _.
                    on_match-Eats laws n s (kw_false ∷ l_paren ∷ ident ∷ []) kw_true
                      (bool_literal true) _ c p w refl (λ q v. done v)
                      λ _.
                        on_match-Eats laws n s (l_paren ∷ ident ∷ []) kw_false (bool_literal false)
                          _ c p w refl (λ q v. done v)
                          λ _.
                            on_match-Eats laws n s (ident ∷ []) l_paren (parse_parens f) _ c p w
                              refl (λ q v. parens f (suc c) q v (omega arith))
                              λ _.
                                on_match-Eats laws n s [] ident (parse_ident f) _ c p w refl
                                  (λ q v. ident_expr f (suc c) q v (omega arith))
                                  λ _.
                                    Done-bind (parser_error "Expect expression" p) _
                                      (parser_error-Ends laws n s _ c p w)
                                      λ _ q v. done (At-mono c (0 + c) (omega arith) v)

    parens : (f c : ℕ) (p : Parser) → At n s c p → Fuel 5 f c → Ends n s c (parse_parens f p)
    parens zero c p w h = absurd (omega (arith, w.room))
    parens (suc f) c p w h =
        Done-bind (parse_expr f p) _
          (Eats-Ends expr_starts (parse_expr f) p (expr f c p w (omega arith)))
          λ e q v.
            Done-bind (consume r_paren "Expect ')' after expression" q) _
              (consume-Ends laws n s _ _ c q v) λ _ r u. done u

    ident_expr : (f c : ℕ) (p : Parser) → At n s c p → Fuel 7 f c → Ends n s c (parse_ident f p)
    ident_expr zero c p w h = absurd (omega (arith, w.room))
    ident_expr (suc f) c p w h =
        Done-if (same_kind p.curr.kind l_paren) _ _ p (λ _. call f _ c p w (omega arith))
          (λ _. variable f _ c p w (omega arith))

    call : (f x c : ℕ) (p : Parser) → At n s c p → Fuel 6 f c → Ends n s c (parse_call f x p)
    call zero x c p w h = absurd (omega (arith, w.room))
    call (suc f) x c p w h =
        Done-bind (consume l_paren "" p) _ (consume-Ends laws n s _ _ c p w) λ _ p₁ w₁.
          let symbol = sema_lookup p₁.sema x in
          Done-bind (when (is_undefined symbol) (parser_error "Undefined function call") p₁) _
            (when-Ends laws n s (is_undefined symbol) _ c p₁ w₁
              (λ _. parser_error-Ends laws n s _ c p₁ w₁))
            λ _ p₂ w₂.
              Done-bind
                ((if same_kind p₂.curr.kind r_paren then pure no_nodes else parse_args f no_nodes)
                  p₂)
                _
                (Done-if (same_kind p₂.curr.kind r_paren) _ _ p₂ (λ _. done w₂)
                  (λ _. args f no_nodes c p₂ w₂ (omega arith)))
                λ as_ p₃ w₃.
                  Done-bind (consume r_paren "Expect ')' after arguments" p₃) _
                    (consume-Ends laws n s _ _ c p₃ w₃)
                    λ _ p₄ w₄.
                      Done-bind (lift (call_type p₄.ctx.types symbol) p₄) _
                        (Done-lift {R = λ _ q. At n s c q} (call_type p₄.ctx.types symbol) p₄
                          (call_type-Halts p₄.ctx.types symbol) (λ _. w₄))
                        λ ty p₅ w₅. done w₅

    args :
        (f : ℕ) (acc : Nodes) (c : ℕ) (p : Parser)
        → At n s c p
        → Fuel 5 f c
        → Ends n s c (parse_args f acc p)
    args zero acc c p w h = absurd (omega (arith, w.room))
    args (suc f) acc c p w h =
        Done-bind (parse_assign f p) _ (assignment f c p w (omega arith)) λ a q v.
          on_match-Done laws n s comma _ _ c q v refl
            (λ r u _.
              Done-mono _ (args f (push_node acc a) (suc c) r u (omega arith))
                λ _ t. At-mono (suc c) c (omega arith))
            (λ _. done v)

    variable :
        (f x c : ℕ) (p : Parser) → At n s c p → Fuel 2 f c → Ends n s c (parse_variable f x p)
    variable zero x c p w h = absurd (omega (arith, w.room))
    variable (suc f) x c p w h =
        let symbol = sema_lookup p.sema x in
        Done-bind (when (is_undefined symbol) (parser_error "Undefined variable") p) _
          (when-Ends laws n s (is_undefined symbol) _ c p w
            (λ _. parser_error-Ends laws n s _ c p w))
          λ _ q v. subscripts f _ c q v (omega arith)

    subscripts :
        (f : ℕ) (x : Node) (c : ℕ) (p : Parser)
        → At n s c p
        → Fuel 1 f c
        → Ends n s c (parse_subscripts f x p)
    subscripts zero x c p w h = absurd (omega (arith, w.room))
    subscripts (suc f) x c p w h =
        on_match-Done laws n s l_bracket _ _ c p w refl
          (λ q v _.
            Done-bind (parse_expr f q) _
              (Eats-Ends expr_starts (parse_expr f) q (expr f (suc c) q v (omega arith)))
              λ i p₁ w₁.
                Done-bind (consume r_bracket "Expect ']'" p₁) _
                  (consume-Ends laws n s _ _ (suc c) p₁ w₁)
                  λ _ p₂ w₂.
                    Done-bind (lift (type_of_node x) p₂) _
                      (Done-lift {R = λ _ r. At n s (suc c) r} (type_of_node x) p₂
                        (type_of_node-Halts x) (λ _. w₂))
                      λ ty p₃ w₃.
                        Done-bind (lift (element_type p₂.ctx.types ty) p₃) _
                          (Done-lift {R = λ _ r. At n s (suc c) r} (element_type p₂.ctx.types ty) p₃
                            (element_type-Halts p₂.ctx.types ty) (λ _. w₃))
                          λ el p₄ w₄.
                            Done-bind (subscript_type el p₄) _
                              (subscript_type-Ends el (suc c) p₄ w₄)
                              λ ty' p₅ w₅.
                                Done-mono _ (subscripts f _ (suc c) p₅ w₅ (omega arith))
                                  λ _ t. At-mono (suc c) c (omega arith))
          (λ _. done w)

    unary :
        (f c : ℕ) (p : Parser) → At n s c p → Fuel 2 f c → Eats n s expr_starts c (parse_unary f) p
    unary zero c p w h = absurd (omega (arith, w.room))
    unary (suc f) c p w h =
        on_match-Eats laws n s (minus ∷ log_not ∷ primary_starts) plus (parse_unary f) _ c p w refl
          (λ q v. Eats-Ends expr_starts (parse_unary f) q (unary f (suc c) q v (omega arith)))
          λ _.
            on_match-Eats laws n s (log_not ∷ primary_starts) minus _ _ c p w refl
              (λ q v.
                Done-bind (parse_unary f q) _
                  (Eats-Ends expr_starts (parse_unary f) q (unary f (suc c) q v (omega arith)))
                  λ x p₁ w₁.
                    Done-bind (lift (negated_type x) p₁) _
                      (Done-lift {R = λ _ r. At n s (suc c) r} (negated_type x) p₁
                        (negated_type-Halts x) (λ _. w₁))
                      λ ty p₂ w₂. done w₂)
              λ _.
                on_match-Eats laws n s primary_starts log_not _ _ c p w refl
                  (λ q v.
                    Done-bind (parse_unary f q) _
                      (Eats-Ends expr_starts (parse_unary f) q (unary f (suc c) q v (omega arith)))
                      λ x p₁ w₁. done w₁)
                  λ _. primary f c p w (omega arith)

    binary :
        (f prec c : ℕ) (p : Parser)
        → At n s c p
        → Fuel 3 f c
        → Eats n s expr_starts c (parse_binary f prec) p
    binary zero prec c p w h = absurd (omega (arith, w.room))
    binary (suc f) prec c p w h =
        Done-bind (parse_unary f p) _ (unary f c p w (omega arith))
          λ x q v. operators f prec x _ q v (omega arith)

    operators :
        (f prec : ℕ) (x : Node) (c : ℕ) (p : Parser)
        → At n s c p
        → Fuel 1 f c
        → Ends n s c (parse_operators f prec x p)
    operators zero prec x c p w h = absurd (omega (arith, w.room))
    operators (suc f) prec x c p w h =
        on_level-Done (level_from prec (get_prec p.curr.kind)) _ _ p
          (λ current e.
            Done-bind (advance_token p) _
              (advance_token-Eats laws n s c p w (level_from-eof prec p.curr.kind e))
              λ _ q v.
                Done-bind (parse_binary f (current + 1) q) _
                  (Eats-Ends expr_starts (parse_binary f (current + 1)) q
                    (binary f (current + 1) (suc c) q v (omega arith)))
                  λ y p₁ w₁.
                    let base : Base = record { tok = p₁.prev; node_type = none } in
                    let kind = get_binary_kind p.curr.kind in
                    Done-bind (checked (λ ctx. sema_analyze_binary ctx kind base x y) p₁) _
                      (binary-Ends n s kind base x y (suc c) p₁ w₁)
                      λ ty p₂ w₂.
                        Done-mono _ (operators f prec _ (suc c) p₂ w₂ (omega arith))
                          λ _ t. At-mono (suc c) c (omega arith))
          (done w)

    assignment : (f c : ℕ) (p : Parser) → At n s c p → Fuel 4 f c → Ends n s c (parse_assign f p)
    assignment zero c p w h = absurd (omega (arith, w.room))
    assignment (suc f) c p w h =
        Done-bind (parse_binary f 0 p) _
          (Eats-Ends expr_starts (parse_binary f 0) p (binary f 0 c p w (omega arith)))
          λ x q v.
            on_match-Done laws n s assign _ _ c q v refl
              (λ r u _.
                Done-bind (parse_assign f r) _ (assignment f (suc c) r u (omega arith)) λ y p₁ w₁.
                  let base : Base = record { tok = p₁.prev; node_type = none } in
                  Done-bind (checked (λ ctx. sema_analyze_assign ctx base x y) p₁) _
                    (assign-Ends n s base x y (suc c) p₁ w₁)
                    λ ty p₂ w₂. done (At-mono (suc c) c (omega arith) w₂))
              (λ _. done v)

    expr :
        (f c : ℕ) (p : Parser) → At n s c p → Fuel 4 f c → Eats n s expr_starts c (parse_expr f) p
    expr zero c p w h = absurd (omega (arith, w.room))
    expr (suc f) c p w h = binary f 0 c p w (omega arith)

  pub parse_assign-Ends :
      (f c : ℕ) (p : Parser) → At n s c p → Fuel 4 f c → Ends n s c (parse_assign f p)
  parse_assign-Ends = assignment

  pub parse_expr-Eats :
      (f c : ℕ) (p : Parser) → At n s c p → Fuel 4 f c → Eats n s expr_starts c (parse_expr f) p
  parse_expr-Eats = expr

  pub parse_expr-Ends :
      (f c : ℕ) (p : Parser) → At n s c p → Fuel 4 f c → Ends n s c (parse_expr f p)
  parse_expr-Ends f c p w h = Eats-Ends expr_starts (parse_expr f) p (expr f c p w h)
