-- ===== src/Parser/TopLevel.antt =====
-- src/parser.c, the rest: functions, the top level and the public functions.
use cact.Prelude.{
  ℕ, zero, suc, Bool, false, not, ◌&&◌, ◌||◌, none, some, if◌then◌else◌, Bytes, codes,
}
use cact.Ast.{Node, null, block_node, Nodes, no_nodes, push_node, test_null}
use cact.Context.{Context}
use cact.Lexer.{Lexer}
use cact.Outcome.{Outcome, fault, out_of_fuel, ok}
use cact.Parser.Decl.{parse_array_dims, parse_var_decl_list}
use cact.Parser.Monad.{Parser, Parse, ◌>>=◌, ◌>>◌, pure, run, state, modify, lift, when}
use cact.Parser.Stmt.{in_panic, parse_items}
use cact.Parser.Tokens.{
  advance_token, parser_error, check_kind, consume, match_kind, on_match, synchronize, new_node,
  curr_type, prev_name, the_types, set_types, define_var, make_array,
}
use cact.Platform.{Platform}
use cact.Sema.{sema_init, sema_scope_enter, sema_scope_leave}
use cact.Token.{
  eof, ident, lit_int, kw_const, l_paren, r_paren, l_brace, r_brace, l_bracket, r_bracket, comma,
  same_kind,
}
use cact.Token.Value.{Token, value_int}
use cact.Types.{TypePtr, is_null, type_func_new, push_param}

module _ ⦃env : Platform⦄ where
  -- The brackets of a parameter behind the first `[`.
  unfoldable pub param_array : ℕ → TypePtr → Parse TypePtr
  param_array f arg_ty = do
    ty ← on_match r_bracket (make_array arg_ty 0) (
        on_match lit_int
          (do
            len ← λ p. elim (value_int p.prev.value) [ none ↦ fault | some i ↦ ok (i, p) ]
            consume r_bracket "Expect ']'"
            make_array arg_ty len)
          (do parser_error "Expect array size"; pure arg_ty))
    parse_array_dims f ty

  -- `vec_push(func_ty->data.func.params, arg_ty)`.
  unfoldable pub add_param : TypePtr → TypePtr → Parse (Unit {0})
  add_param func_ty arg_ty = do s ← the_types; s' ← lift (push_param s func_ty arg_ty); set_types s'

  unfoldable pub parse_param : ℕ → TypePtr → Parse (Unit {0})
  unfolding param_array add_param
  parse_param f func_ty = do
    arg_ty ← curr_type
    when (is_null arg_ty) (parser_error "Expect param type")
    advance_token
    consume ident "Expect param name"
    arg_name ← prev_name
    ty ← on_match l_bracket (param_array f arg_ty) (pure arg_ty)
    symbol ← define_var arg_name ty false
    add_param func_ty ty

  unfoldable pub parse_params : ℕ → TypePtr → Parse (Unit {0})
  unfolding parse_param
  parse_params zero func_ty p = out_of_fuel
  parse_params (suc f) func_ty p =
      run p do parse_param f func_ty; on_match comma (parse_params f func_ty) (pure tt)

  abbrev pub set_func_ret : TypePtr → Parse (Unit {0})
  set_func_ret ty = modify λ p. record p { sema = record (p.sema) { curr_func_ret = ty } }

  abbrev pub enter_scope : Parse (Unit {0})
  enter_scope = modify λ p. record p { sema = sema_scope_enter p.sema }

  abbrev pub leave_scope : Parse (Unit {0})
  leave_scope = modify λ p. record p { sema = sema_scope_leave p.sema }

  -- `type_func_new` in the arena of the parser.
  unfoldable pub make_func : TypePtr → Parse TypePtr
  make_func ret = do s ← the_types; set_types (type_func_new s ret).1; pure (type_func_new s ret).0

  -- The parameters and the body, inside the function's scope.
  unfoldable pub parse_func_scope : ℕ → TypePtr → Parse Node
  unfolding parse_params
  parse_func_scope f func_ty = do
    closed ← check_kind r_paren
    when (not closed) (parse_params f func_ty)
    consume r_paren "Expect ')'"
    body ← new_node
    consume l_brace "Expect '{'"
    stmts ← parse_items f "Unexpected token in function body" no_nodes
    consume r_brace "Expect '}'"
    pure (block_node body stmts)

  unfoldable pub parse_func : ℕ → TypePtr → ℕ → Parse Node
  unfolding make_func parse_func_scope
  parse_func f ret_ty name = do
    consume l_paren ""
    func_ty ← make_func ret_ty
    func_sym ← define_var name func_ty false
    set_func_ret ret_ty
    enter_scope
    body ← parse_func_scope f func_ty
    leave_scope
    set_func_ret none
    pure body

  -- The name and what follows it, behind the type.
  unfoldable pub parse_named : ℕ → TypePtr → Bool → Parse Node
  unfolding parse_func
  parse_named f ty is_const = do
    named ← check_kind ident
    if not named then (do parser_error "Expect name"; pure null) else (do
      consume ident "Expect name"
      name ← prev_name
      is_func ← check_kind l_paren
      if is_func then parse_func f ty name else parse_var_decl_list f ty name is_const)

  unfoldable pub parse_top_level : ℕ → Parse Node
  unfolding parse_named
  parse_top_level f = do
    is_const ← match_kind kw_const
    ty ← curr_type
    if is_null ty && not is_const
        then pure null
        else if is_null ty
        then (do parser_error "Expect type"; advance_token; pure null)
        else (do advance_token; parse_named f ty is_const)

  -- The struct lives on the stack of the caller and is not cleared: `stale` is what its tokens
  -- hold at first.
  unfoldable pub parser_init : Token → Context → Lexer → Outcome Parser
  unfolding advance_token
  parser_init stale ctx lex =
      let p : Parser = record {
        ctx = ctx;
        lex = lex;
        sema = sema_init;
        curr = stale;
        prev = stale;
        panic_mode = false;
      } in
      elim (advance_token p) [ ok (_, p') ↦ ok p' | fault ↦ fault | out_of_fuel ↦ out_of_fuel ]

  -- `arg1_ty` is NULL for a function without parameter.
  unfoldable pub install_builtin : Bytes → TypePtr → TypePtr → Parse (Unit {0})
  unfolding make_func add_param
  install_builtin name ret arg1_ty = do
    func_ty ← make_func ret
    when (not (is_null arg1_ty)) (add_param func_ty arg1_ty)
    p ← state
    let interned = env.intern p.ctx.itn name
    modify λ q. record q { ctx = record (q.ctx) { itn = interned.0 } }
    symbol ← define_var interned.1 func_ty false
    pure tt

  unfoldable pub install_builtins : Parse (Unit {0})
  unfolding install_builtin
  install_builtins = do
    s ← the_types
    install_builtin (codes "print_int") s.ty_void s.ty_int
    install_builtin (codes "print_float") s.ty_void s.ty_float
    install_builtin (codes "print_double") s.ty_void s.ty_double
    install_builtin (codes "print_bool") s.ty_void s.ty_bool
    install_builtin (codes "get_int") s.ty_int none
    install_builtin (codes "get_float") s.ty_float none
    install_builtin (codes "get_double") s.ty_double none

  -- What follows a null result of `parse_top_level`.
  unfoldable pub recover : Parse (Unit {0})
  recover = do
    p ← state
    when (not p.ctx.had_error && not p.panic_mode) (parser_error "Unexpected token at top level")
    panic ← in_panic
    when panic synchronize
    ty ← curr_type
    q ← state
    let is_decl_start = not (is_null ty) || same_kind q.curr.kind kw_const
    when (not is_decl_start && not (same_kind q.curr.kind eof)) advance_token

  -- The loop of `parser_parse`.
  unfoldable pub parse_globals : ℕ → Nodes → Parse Nodes
  unfolding parse_top_level recover
  parse_globals zero globals p = out_of_fuel
  parse_globals (suc f) globals p = run p (
      on_match eof (pure globals) (do
        n ← parse_top_level f
        absent ← lift (test_null n)
        when absent recover
        parse_globals f (if absent then globals else push_node globals n)))

  -- The body of `parser_parse`, in the global scope.
  unfoldable pub parse_unit : ℕ → Parse Nodes
  unfolding install_builtins parse_globals
  parse_unit f = do install_builtins; parse_globals f no_nodes

  unfoldable pub parser_parse : ℕ → Parse Nodes
  unfolding parse_unit
  parser_parse f = do enter_scope; globals ← parse_unit f; leave_scope; pure globals
