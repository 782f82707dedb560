-- ===== src/Parser/Expr.antt =====
-- src/parser.c, part 2: expressions. The recursion takes one unit of fuel a call.
use cact.Prelude.{ℕ, zero, suc, ◌+◌, Bool, true, false, Option, none, some, ltb, if◌then◌else◌}
use cact.Ast.{
  nd_neg, nd_log_not, BinaryKind, nd_add, nd_sub, nd_mul, nd_div, nd_mod, nd_eq, nd_ne, nd_lt,
  nd_le, nd_gt, nd_ge, nd_log_and, nd_log_or, nd_assign, nd_array_access, SemaSymbol, Node, null,
  int_node, float_node, double_node, bool_node, var_node, call_node, unary_node, binary_node, Nodes,
  no_nodes, push_node, type_of_node,
}
use cact.Outcome.{Outcome, fault, out_of_fuel, ok}
use cact.Parser.Monad.{Parse, ◌>>=◌, ◌>>◌, pure, run, state, lift, when}
use cact.Parser.Tokens.{
  advance_token, parser_error, check_kind, consume, on_match, new_node, typed, prev_name, the_types,
  checked,
}
use cact.Platform.{Platform}
use cact.Sema.{sema_lookup, sema_analyze_binary, sema_analyze_assign}
use cact.Token.{
  TokenKind, ident, lit_int, lit_float, lit_double, kw_true, kw_false, plus, minus, star, slash,
  percent, eq, neq, lt, le, gt, ge, l_paren, r_paren, l_bracket, r_bracket, assign, comma, log_and,
  log_or, log_not,
}
use cact.Token.Value.{value_int, value_float, value_double}
use cact.Types.{TypePtr, array, func, TypeStore, deref}

-- -1, below every level, is `none`.
unfoldable pub get_prec : TokenKind → Option ℕ
get_prec star = some 10
get_prec slash = some 10
get_prec percent = some 10
get_prec plus = some 9
get_prec minus = some 9
get_prec lt = some 8
get_prec le = some 8
get_prec gt = some 8
get_prec ge = some 8
get_prec eq = some 7
get_prec neq = some 7
get_prec log_and = some 5
get_prec log_or = some 4
get_prec _ = none

unfoldable pub get_binary_kind : TokenKind → BinaryKind
get_binary_kind plus = nd_add
get_binary_kind minus = nd_sub
get_binary_kind star = nd_mul
get_binary_kind slash = nd_div
get_binary_kind percent = nd_mod
get_binary_kind eq = nd_eq
get_binary_kind neq = nd_ne
get_binary_kind lt = nd_lt
get_binary_kind le = nd_le
get_binary_kind gt = nd_gt
get_binary_kind ge = nd_ge
get_binary_kind log_and = nd_log_and
get_binary_kind log_or = nd_log_or
get_binary_kind _ = nd_add

-- The level of the operator if it is not below `prec`, where the loop of `parse_binary` goes on.
abbrev pub level_from : ℕ → Option ℕ → Option ℕ
level_from prec none = none
level_from prec (some current) = if ltb current prec then none else some current

module _ ⦃env : Platform⦄ where
  -- The loop goes on at a level, and ends without one.
  abbrev pub on_level : {A : Type 0} → Option ℕ → (ℕ → Parse A) → Parse A → Parse A
  on_level none go end = end
  on_level (some current) go end = go current

  -- `match(p, kind)` on a literal, and the read of its value.
  abbrev pub int_literal : Parse Node
  int_literal p = elim (value_int p.prev.value) [
    | none ↦ fault
    | some i ↦ run p do n ← new_node; s ← the_types; pure (int_node (typed n s.ty_int) i)
  ]

  abbrev pub float_literal : Parse Node
  float_literal p = elim (value_float p.prev.value) [
    | none ↦ fault
    | some x ↦ run p do n ← new_node; s ← the_types; pure (float_node (typed n s.ty_float) x)
  ]

  abbrev pub double_literal : Parse Node
  double_literal p = elim (value_double p.prev.value) [
    | none ↦ fault
    | some x ↦ run p do n ← new_node; s ← the_types; pure (double_node (typed n s.ty_double) x)
  ]

  abbrev pub bool_literal : Bool → Parse Node
  bool_literal b = do n ← new_node; s ← the_types; pure (bool_node (typed n s.ty_bool) b)

  abbrev pub is_undefined : Option SemaSymbol → Bool
  is_undefined none = true
  is_undefined (some _) = false

  -- The type of a call: the function's result, and `int` for what is no function.
  unfoldable pub call_type : TypeStore → Option SemaSymbol → Outcome TypePtr
  call_type s none = ok s.ty_int
  call_type s (some func_sym) = elim (deref s.heap func_sym.ty) [
    | ok (func ret params size align) ↦ ok ret
    | ok _ ↦ ok s.ty_int
    | fault ↦ fault
    | out_of_fuel ↦ out_of_fuel
  ]

  abbrev pub variable_type : TypeStore → Option SemaSymbol → TypePtr
  variable_type s none = s.ty_int
  variable_type s (some symbol) = symbol.ty

  -- `curr->ty && curr->ty->kind == TypeKind_ARRAY`, and then its base.
  unfoldable pub element_type : TypeStore → TypePtr → Outcome (Option TypePtr)
  element_type s none = ok none
  element_type s (some a) = elim (deref s.heap (some a)) [
    | ok (array base len size align) ↦ ok (some base)
    | ok _ ↦ ok none
    | fault ↦ fault
    | out_of_fuel ↦ out_of_fuel
  ]

  abbrev pub subscript_type : Option TypePtr → Parse TypePtr
  subscript_type (some base) = pure base
  subscript_type none = do
    parser_error "Subscripted value is not an array"
    s ← the_types
    pure s.ty_int

  -- `if (n->lhs && n->lhs->ty) n->base.ty = n->lhs->ty`, on a fresh node.
  unfoldable pub negated_type : Node → Outcome TypePtr
  negated_type null = ok none
  negated_type lhs = type_of_node lhs

  unfoldable mutual
    unfolding call_type element_type negated_type get_prec get_binary_kind sema_lookup

    pub parse_primary : ℕ → Parse Node
    parse_primary zero p = out_of_fuel
    parse_primary (suc f) p = run p (
        on_match lit_int int_literal (
          on_match lit_float float_literal (
            on_match lit_double double_literal (
              on_match kw_true (bool_literal true) (
                on_match kw_false (bool_literal false) (
                  on_match l_paren (parse_parens f) (
                    on_match ident (parse_ident f)
                      (do parser_error "Expect expression"; pure null))))))))

    pub parse_parens : ℕ → Parse Node
    parse_parens zero p = out_of_fuel
    parse_parens (suc f) p =
        run p do expr ← parse_expr f; consume r_paren "Expect ')' after expression"; pure expr

    pub parse_ident : ℕ → Parse Node
    parse_ident zero p = out_of_fuel
    parse_ident (suc f) p = run p do
      name ← prev_name
      is_call ← check_kind l_paren
      if is_call then parse_call f name else parse_variable f name

    pub parse_call : ℕ → ℕ → Parse Node
    parse_call zero name p = out_of_fuel
    parse_call (suc f) name p = run p do
      consume l_paren ""
      p₁ ← state
      let func_sym = sema_lookup p₁.sema name
      when (is_undefined func_sym) (parser_error "Undefined function call")
      n ← new_node
      empty ← check_kind r_paren
      args ← if empty then pure no_nodes else parse_args f no_nodes
      consume r_paren "Expect ')' after arguments"
      s ← the_types
      ty ← lift (call_type s func_sym)
      pure (call_node (typed n ty) (env.intern_resolve_cstr p₁.ctx.itn name) args)

    pub parse_args : ℕ → Nodes → Parse Nodes
    parse_args zero args p = out_of_fuel
    parse_args (suc f) args p = run p do
      arg ← parse_assign f
      on_match comma (parse_args f (push_node args arg)) (pure (push_node args arg))

    pub parse_variable : ℕ → ℕ → Parse Node
    parse_variable zero name p = out_of_fuel
    parse_variable (suc f) name p = run p do
      let symbol = sema_lookup p.sema name
      when (is_undefined symbol) (parser_error "Undefined variable")
      n ← new_node
      s ← the_types
      parse_subscripts f (var_node (typed n (variable_type s symbol)) symbol)

    pub parse_subscripts : ℕ → Node → Parse Node
    parse_subscripts zero current p = out_of_fuel
    parse_subscripts (suc f) current p = run p (
        on_match l_bracket
          (do
            index ← parse_expr f
            consume r_bracket "Expect ']'"
            access ← new_node
            s ← the_types
            ty ← lift (type_of_node current)
            element ← lift (element_type s ty)
            ty' ← subscript_type element
            parse_subscripts f (binary_node nd_array_access (typed access ty') current index))
          (pure current))

    pub parse_unary : ℕ → Parse Node
    parse_unary zero p = out_of_fuel
    parse_unary (suc f) p = run p (
        on_match plus (parse_unary f) (
          on_match minus
            (do
              n ← new_node
              lhs ← parse_unary f
              ty ← lift (negated_type lhs)
              pure (unary_node nd_neg (typed n ty) lhs))
            (on_match log_not
              (do
                n ← new_node
                lhs ← parse_unary f
                s ← the_types
                pure (unary_node nd_log_not (typed n s.ty_bool) lhs))
              (parse_primary f))))

    pub parse_binary : ℕ → ℕ → Parse Node
    parse_binary zero prec p = out_of_fuel
    parse_binary (suc f) prec p = run p do lhs ← parse_unary f; parse_operators f prec lhs

    -- The loop of `parse_binary`.
    pub parse_operators : ℕ → ℕ → Node → Parse Node
    parse_operators zero prec lhs p = out_of_fuel
    parse_operators (suc f) prec lhs p =
        on_level (level_from prec (get_prec p.curr.kind))
          (λ current. do
            advance_token
            rhs ← parse_binary f (current + 1)
            n ← new_node
            let kind = get_binary_kind p.curr.kind
            ty ← checked λ ctx. sema_analyze_binary ctx kind n lhs rhs
            parse_operators f prec (binary_node kind (typed n ty) lhs rhs))
          (pure lhs) p

    pub parse_assign : ℕ → Parse Node
    parse_assign zero p = out_of_fuel
    parse_assign (suc f) p = run p do
      lhs ← parse_binary f 0
      on_match assign
          (do
            rhs ← parse_assign f
            n ← new_node
            ty ← checked λ ctx. sema_analyze_assign ctx n lhs rhs
            pure (binary_node nd_assign (typed n ty) lhs rhs))
          (pure lhs)

    pub parse_expr : ℕ → Parse Node
    parse_expr zero p = out_of_fuel
    parse_expr (suc f) p = parse_binary f 0 p
