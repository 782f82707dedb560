-- ===== src/Parser/Relation/Expr.antt =====
-- The expression parser keeps every stable relation, whatever its fuel.
use cact.Prelude.{ℕ, zero, suc, ◌+◌, Option, none, some, if◌then◌else◌}
use cact.Ast.{
  Base, Node, int_node, float_node, double_node, Nodes, no_nodes, push_node, type_of_node,
}
use cact.Outcome.{fault}
use cact.Parser.Expr.{
  get_prec, get_binary_kind, level_from, on_level, int_literal, float_literal, double_literal,
  is_undefined, call_type, element_type, subscript_type, negated_type, parse_primary, parse_parens,
  parse_ident, parse_call, parse_args, parse_variable, parse_subscripts, parse_unary, parse_binary,
  parse_operators, parse_assign, parse_expr,
}
use cact.Parser.Monad.{Parser, Parse, ◌>>=◌, pure, run, lift, when}
use cact.Parser.Relation.{Stable, After, Keeps, Keeps->>=, Keeps-lift, Keeps-if, Keeps-when}
use cact.Parser.Relation.Steps.{
  advance_token-Keeps, parser_error-Keeps, consume-Keeps, on_match-Keeps, checked-Keeps,
}
use cact.Parser.Tokens.{parser_error, consume, new_node, typed, the_types, checked}
use cact.Platform.{Platform}
use cact.Sema.{sema_lookup, sema_analyze_binary, sema_analyze_assign}
use cact.Sema.Reports.{sema_analyze_binary-Reported, sema_analyze_assign-Reported}
use cact.Token.{l_paren, r_paren, r_bracket, same_kind}
use cact.Token.Value.{value_int, value_float, value_double}
use cact.Types.{TypePtr}

module _ ⦃env : Platform⦄ {R : Parser → Parser → Type 0} (st : Stable R) where
  int_literal-Keeps : Keeps R int_literal
  int_literal-Keeps p = go (value_int p.prev.value)
    where
      go :
          (v : Option ℕ)
          → After (R p) (elim v [
            | none ↦ fault
            | some i ↦ run p do n ← new_node; s ← the_types; pure (int_node (typed n s.ty_int) i)
          ])
      go none = tt
      go (some i) = st.same p

  float_literal-Keeps : Keeps R float_literal
  float_literal-Keeps p = go (value_float p.prev.value)
    where
      go :
          (v : Option env.Float)
          → After (R p) (elim v [
            | none ↦ fault
            | some x ↦
                run p do n ← new_node; s ← the_types; pure (float_node (typed n s.ty_float) x)
          ])
      go none = tt
      go (some i) = st.same p

  double_literal-Keeps : Keeps R double_literal
  double_literal-Keeps p = go (value_double p.prev.value)
    where
      go :
          (v : Option env.Double)
          → After (R p) (elim v [
            | none ↦ fault
            | some x ↦
                run p do n ← new_node; s ← the_types; pure (double_node (typed n s.ty_double) x)
          ])
      go none = tt
      go (some i) = st.same p

  subscript_type-Keeps : (t : Option TypePtr) → Keeps R (subscript_type t)
  subscript_type-Keeps (some t) p = st.same p
  subscript_type-Keeps none p = Keeps->>= st _ _ (parser_error-Keeps st _) (λ _ q. st.same q) p

  Keeps-on_level :
      {A : Type 0} (l : Option ℕ) (k : ℕ → Parse A) (m : Parse A)
      → ((current : ℕ) → Keeps R (k current))
      → Keeps R m
      → Keeps R (on_level l k m)
  Keeps-on_level none k m hk hm = hm
  Keeps-on_level (some current) k m hk hm = hk current

  mutual
    unfolding parse_primary

    primary : (f : ℕ) → Keeps R (parse_primary f)
    primary zero p = tt
    primary (suc f) p =
        on_match-Keeps st _ _ _ int_literal-Keeps
          (on_match-Keeps st _ _ _ float_literal-Keeps (
            on_match-Keeps st _ _ _ double_literal-Keeps (
              on_match-Keeps st _ _ _ (λ q. st.same q)
                (on_match-Keeps st _ _ _ (λ q. st.same q)
                  (on_match-Keeps st _ _ _ (parens f) (
                    on_match-Keeps st _ _ _ (ident_expr f)
                      (Keeps->>= st _ _ (parser_error-Keeps st _) (λ _ q. st.same q))))))))
          p

    parens : (f : ℕ) → Keeps R (parse_parens f)
    parens zero p = tt
    parens (suc f) p =
        Keeps->>= st _ _ (expr f) (λ e. Keeps->>= st _ _ (consume-Keeps st _ _) (λ _ q. st.same q))
          p

    ident_expr : (f : ℕ) → Keeps R (parse_ident f)
    ident_expr zero p = tt
    ident_expr (suc f) p = Keeps-if st _ _ _ (call f _) (variable f _) p

    call : (f x : ℕ) → Keeps R (parse_call f x)
    call zero x p = tt
    call (suc f) x p =
        Keeps->>= st (consume l_paren "") _ (consume-Keeps st _ _)
          (λ _ p₁.
            Keeps->>= st
              (when (is_undefined (sema_lookup p₁.sema x)) (parser_error "Undefined function call"))
              _ (Keeps-when st _ _ (parser_error-Keeps st _))
              (λ _ p₂.
                Keeps->>= st
                  (if same_kind p₂.curr.kind r_paren then pure no_nodes else parse_args f no_nodes)
                  _
                  (Keeps-if st (same_kind p₂.curr.kind r_paren) (pure no_nodes)
                    (parse_args f no_nodes) st.same (args f no_nodes))
                  (λ a.
                    Keeps->>= st (consume r_paren "Expect ')' after arguments") _
                      (consume-Keeps st _ _)
                      (λ _ p₃.
                        Keeps->>= st (lift (call_type p₃.ctx.types (sema_lookup p₁.sema x))) _
                          (Keeps-lift st _) (λ ty. st.same) p₃))
                  p₂)
              p₁)
          p

    args : (f : ℕ) (acc : Nodes) → Keeps R (parse_args f acc)
    args zero acc p = tt
    args (suc f) acc p =
        Keeps->>= st _ _ (assignment f)
          (λ a. on_match-Keeps st _ _ _ (args f (push_node acc a)) st.same) p

    variable : (f x : ℕ) → Keeps R (parse_variable f x)
    variable zero x p = tt
    variable (suc f) x p =
        Keeps->>= st
          (when (is_undefined (sema_lookup p.sema x)) (parser_error "Undefined variable")) _
          (Keeps-when st _ _ (parser_error-Keeps st _)) (λ _ q. subscripts f _ q) p

    subscripts : (f : ℕ) (n : Node) → Keeps R (parse_subscripts f n)
    subscripts zero n p = tt
    subscripts (suc f) n p =
        on_match-Keeps st _ _ _
          (Keeps->>= st _ _ (expr f) (λ i.
            Keeps->>= st _ _ (consume-Keeps st r_bracket "Expect ']'") (λ _ q.
              Keeps->>= st (lift (type_of_node n)) _ (Keeps-lift st (type_of_node n))
                (λ ty.
                  Keeps->>= st (lift (element_type q.ctx.types ty)) _
                    (Keeps-lift st (element_type q.ctx.types ty))
                    (λ el.
                      Keeps->>= st (subscript_type el) _ (subscript_type-Keeps el)
                        (λ ty'. subscripts f _)))
                q)))
          st.same p

    unary : (f : ℕ) → Keeps R (parse_unary f)
    unary zero p = tt
    unary (suc f) p =
        on_match-Keeps st _ _ _ (unary f)
          (on_match-Keeps st _ _ _
            (λ q.
              Keeps->>= st _ _ (unary f)
                (λ lhs.
                  Keeps->>= st (lift (negated_type lhs)) _ (Keeps-lift st (negated_type lhs))
                    (λ ty. st.same))
                q)
            (on_match-Keeps st _ _ _ (λ q. Keeps->>= st _ _ (unary f) (λ lhs r. st.same r) q)
              (primary f)))
          p

    binary : (f prec : ℕ) → Keeps R (parse_binary f prec)
    binary zero prec p = tt
    binary (suc f) prec p = Keeps->>= st _ _ (unary f) (λ lhs. operators f prec lhs) p

    operators : (f prec : ℕ) (lhs : Node) → Keeps R (parse_operators f prec lhs)
    operators zero prec lhs p = tt
    operators (suc f) prec lhs p =
        Keeps-on_level (level_from prec (get_prec p.curr.kind)) _ _
          (λ current. Keeps->>= st _ _ (advance_token-Keeps st) (λ _.
            Keeps->>= st _ _ (binary f (current + 1)) (λ rhs q.
              let n : Base = record { tok = q.prev; node_type = none } in
              let kind = get_binary_kind p.curr.kind in
              Keeps->>= st (checked λ ctx. sema_analyze_binary ctx kind n lhs rhs) _
                (checked-Keeps st _ (λ ctx. sema_analyze_binary-Reported ctx kind n lhs rhs))
                (λ ty. operators f prec _) q)))
          st.same p

    assignment : (f : ℕ) → Keeps R (parse_assign f)
    assignment zero p = tt
    assignment (suc f) p =
        Keeps->>= st _ _ (binary f 0)
          (λ lhs.
            on_match-Keeps st _ _ _
              (Keeps->>= st _ _ (assignment f) (λ rhs q.
                let n : Base = record { tok = q.prev; node_type = none } in
                Keeps->>= st (checked λ ctx. sema_analyze_assign ctx n lhs rhs) _
                  (checked-Keeps st _ (λ ctx. sema_analyze_assign-Reported ctx n lhs rhs))
                  (λ ty. st.same) q))
              st.same)
          p

    expr : (f : ℕ) → Keeps R (parse_expr f)
    expr zero p = tt
    expr (suc f) p = binary f 0 p

  pub parse_expr-Keeps : (f : ℕ) → Keeps R (parse_expr f)
  parse_expr-Keeps = expr

  pub parse_assign-Keeps : (f : ℕ) → Keeps R (parse_assign f)
  parse_assign-Keeps = assignment
