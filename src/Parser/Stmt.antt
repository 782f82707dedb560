-- ===== src/Parser/Stmt.antt =====
-- src/parser.c, part 3: statements and blocks. The recursion takes one unit of fuel a call.
use cact.Prelude.{
  ℕ, zero, suc, String, Bool, true, false, not, ◌&&◌, ◌||◌, List, [], ◌∷◌, if◌then◌else◌,
}
use cact.Ast.{
  nd_return, nd_expr_stmt, nd_assign, JumpKind, nd_break, nd_continue, Node, null, unary_node,
  binary_node, if_node, while_node, block_node, jump_node, Nodes, no_nodes, push_node, unwritten,
  test_null,
}
use cact.Outcome.{out_of_fuel, ok}
use cact.Parser.Decl.{parse_decl}
use cact.Parser.Expr.{parse_expr}
use cact.Parser.Monad.{Parse, ◌>>=◌, ◌>>◌, pure, run, state, modify, lift, when}
use cact.Parser.Tokens.{
  mem_kind, advance_token, parser_error, check_kind, consume, on_match, synchronize, new_node,
  typed, curr_type, checked,
}
use cact.Platform.{Platform}
use cact.Sema.{sema_scope_enter, sema_scope_leave, sema_analyze_assign, sema_analyze_return}
use cact.Token.{
  TokenKind, eof, ident, lit_int, lit_float, lit_double, kw_const, kw_if, kw_else, kw_while,
  kw_break, kw_continue, kw_return, kw_true, kw_false, plus, minus, l_paren, r_paren, l_brace,
  r_brace, assign, semicolon, log_not, same_kind,
}
use cact.Types.{is_null}

-- The kinds of `is_stmt_start`.
abbrev pub stmt_starts : List TokenKind
stmt_starts =
    kw_if ∷ kw_while ∷ kw_return ∷ kw_break ∷ kw_continue ∷ l_brace ∷ ident ∷ l_paren ∷ lit_int
    ∷ lit_float ∷ lit_double ∷ kw_true ∷ kw_false ∷ plus ∷ minus ∷ log_not ∷ []

module _ ⦃env : Platform⦄ where
  -- `if (node) vec_push(...)`.
  abbrev pub push_if : Nodes → Node → Bool → Nodes
  push_if stmts n true = stmts
  push_if stmts n false = push_node stmts n

  -- `check_kind(R_BRACE) || check_kind(EOF)`.
  abbrev pub at_end : Parse Bool
  at_end p = ok (same_kind p.curr.kind r_brace || same_kind p.curr.kind eof, p)

  abbrev pub in_panic : Parse Bool
  in_panic p = ok (p.panic_mode, p)

  unfoldable pub parse_return : ℕ → Parse Node
  parse_return f = do
    n ← new_node
    empty ← check_kind semicolon
    lhs ← if not empty then parse_expr f else pure unwritten
    consume semicolon "Expect ';'"
    p ← state
    ty ← checked λ ctx. sema_analyze_return ctx p.sema n lhs
    pure (unary_node nd_return (typed n ty) lhs)

  unfoldable pub parse_jump : JumpKind → Parse Node
  parse_jump kind = do n ← new_node; consume semicolon "Expect ';'"; pure (jump_node kind n)

  -- The right side of an assignment statement to `expr`, which is what is left if it is missing.
  unfoldable pub assign_to : Node → Node → Bool → Parse Node
  assign_to expr rhs true = do parser_error "Expect expression after '='"; pure expr
  assign_to expr rhs false = do
    n ← new_node
    ty ← checked λ ctx. sema_analyze_assign ctx n expr rhs
    pure (binary_node nd_assign (typed n ty) expr rhs)

  unfoldable pub finish_expr_stmt : ℕ → Node → Bool → Parse Node
  unfolding assign_to
  finish_expr_stmt f expr true = pure null
  finish_expr_stmt f expr false = do
    whole ←
        on_match assign
          (do rhs ← parse_expr f; absent ← lift (test_null rhs); assign_to expr rhs absent)
          (pure expr)
    consume semicolon "Expect ';'"
    n ← new_node
    pure (unary_node nd_expr_stmt n whole)

  -- The end of `parse_stmt`.
  unfoldable pub parse_expr_stmt : ℕ → Parse Node
  unfolding finish_expr_stmt
  parse_expr_stmt f = do
    expr ← parse_expr f
    absent ← lift (test_null expr)
    finish_expr_stmt f expr absent

  unfoldable mutual
    unfolding parse_return parse_jump parse_expr_stmt

    pub parse_stmt : ℕ → Parse Node
    parse_stmt zero p = out_of_fuel
    parse_stmt (suc f) p = run p (
        on_match kw_if (parse_if f) (
          on_match kw_while (parse_while f) (
            on_match kw_return (parse_return f) (
              on_match kw_break (parse_jump nd_break) (
                on_match kw_continue (parse_jump nd_continue) (do
                  braces ← check_kind l_brace
                  if braces then parse_block f else parse_expr_stmt f))))))

    pub parse_if : ℕ → Parse Node
    parse_if zero p = out_of_fuel
    parse_if (suc f) p = run p do
      n ← new_node
      consume l_paren "Expect '('"
      test ← parse_expr f
      consume r_paren "Expect ')'"
      then_branch ← parse_stmt f
      else_branch ← on_match kw_else (parse_stmt f) (pure unwritten)
      pure (if_node n test then_branch else_branch)

    pub parse_while : ℕ → Parse Node
    parse_while zero p = out_of_fuel
    parse_while (suc f) p = run p do
      n ← new_node
      consume l_paren "Expect '('"
      test ← parse_expr f
      consume r_paren "Expect ')'"
      body ← parse_stmt f
      pure (while_node n test body)

    pub parse_block : ℕ → Parse Node
    parse_block zero p = out_of_fuel
    parse_block (suc f) p = run p do
      consume l_brace "Expect '{' to begin block"
      n ← new_node
      modify λ q. record q { sema = sema_scope_enter q.sema }
      stmts ← parse_items f "Unexpected token in block" no_nodes
      modify λ q. record q { sema = sema_scope_leave q.sema }
      consume r_brace "Expect '}' to end block"
      pure (block_node n stmts)

    -- The loop of `parse_block`, and that of `parse_func` with its own message.
    pub parse_items : ℕ → String → Nodes → Parse Nodes
    parse_items zero msg stmts p = out_of_fuel
    parse_items (suc f) msg stmts p = run p do
      done ← at_end
      if done then pure stmts else (do
        panic ← in_panic
        when panic synchronize
        ended ← at_end
        if panic && ended then pure stmts else parse_item f msg stmts)

    -- The rest of a round of the loop.
    pub parse_item : ℕ → String → Nodes → Parse Nodes
    parse_item zero msg stmts p = out_of_fuel
    parse_item (suc f) msg stmts p = run p do
      ty ← curr_type
      let is_decl = not (is_null ty) || same_kind p.curr.kind kw_const
      let is_stmt_start = mem_kind p.curr.kind stmt_starts
      if not is_decl && not is_stmt_start
          then (do parser_error msg; advance_token; parse_items f msg stmts)
          else (do
            node ← if is_decl then parse_decl f else parse_stmt f
            absent ← lift (test_null node)
            parse_items f msg (push_if stmts node absent))
