-- ===== src/Parser/Decl.antt =====
-- src/parser.c, part 4: array dimensions, initialiser lists and variable declarations.
use cact.Prelude.{ℕ, zero, suc, Bool, true, false, not, none, some, if◌then◌else◌}
use cact.Ast.{
  Base, Node, null, init_list, block_node, decl_node, Nodes, no_nodes, push_node, unwritten,
  test_null, type_of_node,
}
use cact.Context.{report_if}
use cact.Outcome.{Outcome, fault, out_of_fuel, ok}
use cact.Parser.Expr.{parse_assign, parse_expr}
use cact.Parser.Monad.{Parse, ◌>>=◌, ◌>>◌, pure, run, modify, lift, when}
use cact.Parser.Tokens.{
  advance_token, parser_error, check_kind, consume, match_kind, on_match, new_node, typed,
  curr_type, prev_name, the_types, define_var, make_array,
}
use cact.Platform.{Platform}
use cact.Sema.{types_match}
use cact.Token.{
  ident, lit_int, kw_const, l_brace, r_brace, l_bracket, r_bracket, assign, semicolon, comma,
}
use cact.Token.Value.{value_int}
use cact.Types.{TypePtr, TypeStore, is_null}

module _ ⦃env : Platform⦄ where
  -- The value of a `match`ed integer literal.
  abbrev pub prev_int : Parse ℕ
  prev_int p = elim (value_int p.prev.value) [ none ↦ fault | some i ↦ ok (i, p) ]

  unfoldable pub parse_array_dims : ℕ → TypePtr → Parse TypePtr
  parse_array_dims zero base p = out_of_fuel
  parse_array_dims (suc f) base p = run p (
      on_match l_bracket
        (on_match lit_int
          (do
            len ← prev_int
            consume r_bracket "Expect ']'"
            ty ← make_array base len
            parse_array_dims f ty)
          (do
            parser_error "Array size must be constant int"
            closed ← check_kind r_bracket
            when closed advance_token
            parse_array_dims f base))
        (pure base))

  unfoldable mutual
    pub parse_initializer_list : ℕ → Parse Node
    parse_initializer_list zero p = out_of_fuel
    parse_initializer_list (suc f) p = run p do
      consume l_brace "Expect '{'"
      n ← new_node
      empty ← check_kind r_brace
      inits ← if empty then pure no_nodes else parse_inits f no_nodes
      consume r_brace "Expect '}'"
      pure (init_list n inits)

    -- The `do` loop: elements up to the last comma.
    pub parse_inits : ℕ → Nodes → Parse Nodes
    parse_inits zero inits p = out_of_fuel
    parse_inits (suc f) inits p = run p do
      nested ← check_kind l_brace
      val ← if nested then parse_initializer_list f else parse_assign f
      on_match comma (parse_inits f (push_node inits val)) (pure (push_node inits val))

  -- `!type_eq(ty, n->init->ty)`, from the read of `n->init->ty`.
  abbrev pub differs_from : TypeStore → TypePtr → Outcome TypePtr → Outcome Bool
  differs_from s ty (ok init_ty) = elim (types_match s ty init_ty) [
    | ok same ↦ ok (not same)
    | fault ↦ fault
    | out_of_fuel ↦ out_of_fuel
  ]
  differs_from s ty fault = fault
  differs_from s ty out_of_fuel = out_of_fuel

  -- `n->init && !type_eq(ty, n->init->ty)`.
  unfoldable pub init_mismatch : TypeStore → TypePtr → Node → Bool → Outcome Bool
  init_mismatch s ty init true = ok false
  init_mismatch s ty init false = differs_from s ty (type_of_node init)

  unfoldable pub checked_init : ℕ → TypePtr → Base → Parse Node
  unfolding init_mismatch
  checked_init f ty n = do
    init ← parse_expr f
    absent ← lift (test_null init)
    s ← the_types
    bad ← lift (init_mismatch s ty init absent)
    modify λ p. record p { ctx = report_if bad p.ctx (some n.tok.span_start) "Init type mismatch" }
    pure init

  -- One round of the loop of `parse_var_decl_list`, from the dimensions on.
  unfoldable pub parse_declarator : ℕ → TypePtr → Bool → ℕ → Parse Node
  unfolding checked_init
  parse_declarator f base_ty is_const name = do
    ty ← parse_array_dims f base_ty
    symbol ← define_var name ty is_const
    n ← new_node
    init ←
        on_match assign
          (do
            braces ← check_kind l_brace
            if braces then parse_initializer_list f else checked_init f ty n)
          (do when is_const (parser_error "Const variable must be initialized"); pure unwritten)
    pure (decl_node (typed n ty) symbol init)

  -- The loop; `decls` are the declarations before the one of `name`.
  unfoldable pub parse_declarators : ℕ → TypePtr → Bool → ℕ → Nodes → Parse Nodes
  unfolding parse_declarator
  parse_declarators zero base_ty is_const name decls p = out_of_fuel
  parse_declarators (suc f) base_ty is_const name decls p = run p do
    n ← parse_declarator f base_ty is_const name
    on_match comma
        (do
          named ← check_kind ident
          if named
              then (do
                advance_token
                name' ← prev_name
                parse_declarators f base_ty is_const name' (push_node decls n))
              else (do parser_error "Expect variable name"; pure (push_node decls n)))
        (pure (push_node decls n))

  -- The argument `is_global` is not used by the program.
  unfoldable pub parse_var_decl_list : ℕ → TypePtr → ℕ → Bool → Parse Node
  unfolding parse_declarators
  parse_var_decl_list f base_ty first_name is_const = do
    block ← new_node
    decls ← parse_declarators f base_ty is_const first_name no_nodes
    consume semicolon "Expect ';'"
    pure (block_node block decls)

  unfoldable pub parse_decl : ℕ → Parse Node
  unfolding parse_var_decl_list
  parse_decl f = do
    is_const ← match_kind kw_const
    base_ty ← curr_type
    if is_null base_ty then (do parser_error "Expect type name"; pure null) else (do
      advance_token
      named ← check_kind ident
      if not named
          then (do parser_error "Expect variable name"; pure null)
          else (do advance_token; name ← prev_name; parse_var_decl_list f base_ty name is_const))
