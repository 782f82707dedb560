-- ===== src/Parser/Relation/Stmt.antt =====
-- Statements and blocks keep every stable relation.
use cact.Prelude.{ℕ, zero, suc, String, Bool, true, false, not, ◌&&◌, ◌||◌, none, if◌then◌else◌}
use cact.Ast.{
  JumpKind, nd_break, nd_continue, Base, Node, block_node, Nodes, no_nodes, unwritten, test_null,
}
use cact.Parser.Decl.{parse_decl}
use cact.Parser.Expr.{parse_expr}
use cact.Parser.Monad.{Parser, Parse, ◌>>=◌, ◌>>◌, pure, lift, when}
use cact.Parser.Relation.{Stable, Keeps, Keeps->>=, Keeps-lift, Keeps-if, Keeps-when, Keeps-within}
use cact.Parser.Relation.Decl.{parse_decl-Keeps}
use cact.Parser.Relation.Expr.{parse_expr-Keeps}
use cact.Parser.Relation.Steps.{
  advance_token-Keeps, parser_error-Keeps, consume-Keeps, on_match-Keeps, synchronize-Keeps,
  checked-Keeps,
}
use cact.Parser.Stmt.{
  stmt_starts, push_if, parse_return, parse_jump, assign_to, finish_expr_stmt, parse_expr_stmt,
  parse_stmt, parse_if, parse_while, parse_block, parse_items, parse_item,
}
use cact.Parser.Tokens.{
  mem_kind, advance_token, parser_error, consume, on_match, synchronize, token_to_type, checked,
}
use cact.Platform.{Platform}
use cact.Sema.{sema_analyze_assign, sema_analyze_return}
use cact.Sema.Reports.{sema_analyze_assign-Reported, sema_analyze_return-Reported}
use cact.Token.{
  eof, kw_const, kw_if, kw_else, kw_while, kw_break, kw_continue, kw_return, l_paren, r_paren,
  l_brace, r_brace, assign, semicolon, same_kind,
}
use cact.Types.{is_null}

module _ ⦃env : Platform⦄ {R : Parser → Parser → Type 0} (st : Stable R) where
  parse_return-Keeps : (f : ℕ) → Keeps R (parse_return f)
  unfolding parse_return
  parse_return-Keeps f p =
      let empty = same_kind p.curr.kind semicolon in
      let n : Base = record { tok = p.prev; node_type = none } in
      Keeps->>= st (if not empty then parse_expr f else pure unwritten) _
        (Keeps-if st (not empty) (parse_expr f) (pure unwritten) (parse_expr-Keeps st f) st.same)
        (λ lhs. Keeps->>= st (consume semicolon "Expect ';'") _ (consume-Keeps st _ _) (λ _ q.
          Keeps->>= st (checked λ ctx. sema_analyze_return ctx q.sema n lhs) _
            (checked-Keeps st _ (λ ctx. sema_analyze_return-Reported ctx q.sema n lhs))
            (λ ty. st.same) q))
        p

  parse_jump-Keeps : (kind : JumpKind) → Keeps R (parse_jump kind)
  unfolding parse_jump
  parse_jump-Keeps kind p =
      Keeps->>= st (consume semicolon "Expect ';'") _ (consume-Keeps st _ _) (λ _. st.same) p

  assign_to-Keeps : (expr rhs : Node) (absent : Bool) → Keeps R (assign_to expr rhs absent)
  unfolding assign_to
  assign_to-Keeps expr rhs true p =
      Keeps->>= st (parser_error "Expect expression after '='") _ (parser_error-Keeps st _)
        (λ _. st.same) p
  assign_to-Keeps expr rhs false p =
      let n : Base = record { tok = p.prev; node_type = none } in
      Keeps->>= st (checked λ ctx. sema_analyze_assign ctx n expr rhs) _
        (checked-Keeps st _ (λ ctx. sema_analyze_assign-Reported ctx n expr rhs)) (λ ty. st.same) p

  finish_expr_stmt-Keeps :
      (f : ℕ) (expr : Node) (absent : Bool) → Keeps R (finish_expr_stmt f expr absent)
  unfolding finish_expr_stmt
  finish_expr_stmt-Keeps f expr true p = st.same p
  finish_expr_stmt-Keeps f expr false p =
      let right = do rhs ← parse_expr f; absent ← lift (test_null rhs); assign_to expr rhs absent
      in Keeps->>= st (on_match assign right (pure expr)) _
        (on_match-Keeps st assign right (pure expr)
          (Keeps->>= st (parse_expr f) _ (parse_expr-Keeps st f) (λ rhs.
            Keeps->>= st (lift (test_null rhs)) _ (Keeps-lift st (test_null rhs))
              (λ absent. assign_to-Keeps expr rhs absent)))
          st.same)
        (λ whole.
          Keeps->>= st (consume semicolon "Expect ';'") _ (consume-Keeps st _ _) (λ _. st.same))
        p

  parse_expr_stmt-Keeps : (f : ℕ) → Keeps R (parse_expr_stmt f)
  unfolding parse_expr_stmt
  parse_expr_stmt-Keeps f = Keeps->>= st (parse_expr f) _ (parse_expr-Keeps st f) (λ expr.
      Keeps->>= st (lift (test_null expr)) _ (Keeps-lift st (test_null expr))
        (λ absent. finish_expr_stmt-Keeps f expr absent))

  -- Behind the opening brace of a block.
  abbrev block_body : ℕ → Parse Nodes
  block_body f = parse_items f "Unexpected token in block" no_nodes

  condition :
      {A : Type 0} (f : ℕ) (k : Node → Parse A)
      → ((test : Node) → Keeps R (k test))
      → Keeps R (do
        consume l_paren "Expect '('"
        test ← parse_expr f
        consume r_paren "Expect ')'"
        k test)
  condition f k hk = Keeps->>= st (consume l_paren "Expect '('") _ (consume-Keeps st _ _) (λ _.
      Keeps->>= st (parse_expr f) _ (parse_expr-Keeps st f) (λ test.
        Keeps->>= st (consume r_paren "Expect ')'") _ (consume-Keeps st _ _) (λ _. hk test)))

  mutual
    unfolding parse_stmt

    stmt : (f : ℕ) → Keeps R (parse_stmt f)
    stmt zero p = tt
    stmt (suc f) p =
        on_match-Keeps st kw_if _ _ (if_stmt f)
          (on_match-Keeps st kw_while _ _ (while_stmt f) (
            on_match-Keeps st kw_return _ _ (parse_return-Keeps f) (
              on_match-Keeps st kw_break _ _ (parse_jump-Keeps nd_break) (
                on_match-Keeps st kw_continue _ _ (parse_jump-Keeps nd_continue) (λ q.
                  Keeps-if st (same_kind q.curr.kind l_brace) (parse_block f) (parse_expr_stmt f)
                    (block f) (parse_expr_stmt-Keeps f) q)))))
          p

    if_stmt : (f : ℕ) → Keeps R (parse_if f)
    if_stmt zero p = tt
    if_stmt (suc f) p =
        condition f _
          (λ test. Keeps->>= st (parse_stmt f) _ (stmt f) (λ then_branch.
            Keeps->>= st (on_match kw_else (parse_stmt f) (pure unwritten)) _
              (on_match-Keeps st kw_else (parse_stmt f) (pure unwritten) (stmt f) st.same)
              (λ else_branch. st.same)))
          p

    while_stmt : (f : ℕ) → Keeps R (parse_while f)
    while_stmt zero p = tt
    while_stmt (suc f) p =
        condition f _ (λ test. Keeps->>= st (parse_stmt f) _ (stmt f) (λ body. st.same)) p

    block : (f : ℕ) → Keeps R (parse_block f)
    block zero p = tt
    block (suc f) p =
        Keeps->>= st (consume l_brace "Expect '{' to begin block") _ (consume-Keeps st _ _)
          (λ _ q.
            Keeps-within st (block_body f)
              (λ stmts. do
                consume r_brace "Expect '}' to end block"
                pure (block_node (record { tok = q.prev; node_type = none }) stmts))
              (items f "Unexpected token in block" no_nodes)
              (λ stmts.
                Keeps->>= st (consume r_brace "Expect '}' to end block") _ (consume-Keeps st _ _)
                  (λ _. st.same))
              q)
          p

    items : (f : ℕ) (msg : String) (acc : Nodes) → Keeps R (parse_items f msg acc)
    items zero msg acc p = tt
    items (suc f) msg acc p =
        Keeps-if st (same_kind p.curr.kind r_brace || same_kind p.curr.kind eof) (pure acc) _
          st.same
          (λ q.
            Keeps->>= st (when q.panic_mode synchronize) _
              (Keeps-when st q.panic_mode synchronize (synchronize-Keeps st))
              (λ _ r.
                Keeps-if st
                  (q.panic_mode && (same_kind r.curr.kind r_brace || same_kind r.curr.kind eof))
                  (pure acc) (parse_item f msg acc) st.same (item f msg acc) r)
              q)
          p

    item : (f : ℕ) (msg : String) (acc : Nodes) → Keeps R (parse_item f msg acc)
    item zero msg acc p = tt
    item (suc f) msg acc p =
        let is_decl =
          not (is_null (token_to_type p.ctx.types p.curr.kind)) || same_kind p.curr.kind kw_const in
        Keeps-if st (not is_decl && not (mem_kind p.curr.kind stmt_starts)) _ _
          (Keeps->>= st (parser_error msg) _ (parser_error-Keeps st msg)
            (λ _. Keeps->>= st advance_token _ (advance_token-Keeps st) (λ _. items f msg acc)))
          (Keeps->>= st (if is_decl then parse_decl f else parse_stmt f) _
            (Keeps-if st is_decl (parse_decl f) (parse_stmt f) (parse_decl-Keeps st f) (stmt f))
            (λ node.
              Keeps->>= st (lift (test_null node)) _ (Keeps-lift st (test_null node))
                (λ absent. items f msg (push_if acc node absent))))
          p

  pub parse_stmt-Keeps : (f : ℕ) → Keeps R (parse_stmt f)
  parse_stmt-Keeps = stmt

  pub parse_block-Keeps : (f : ℕ) → Keeps R (parse_block f)
  parse_block-Keeps = block

  pub parse_items-Keeps : (f : ℕ) (msg : String) (acc : Nodes) → Keeps R (parse_items f msg acc)
  parse_items-Keeps = items
