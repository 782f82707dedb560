-- ===== src/Parser/Halting/Stmt.antt =====
-- Statements and blocks are parsed to their end: a round of a block's loop uses up a token.
pub mod Simple
use cact.Prelude.{
  ℕ, zero, suc, String, ◌≡◌, refl, Bool, true, false, not, ◌&&◌, ◌||◌, ◌∷◌, arith, if◌then◌else◌,
}
use cact.Ast.{nd_break, nd_continue, Nodes, no_nodes, unwritten, test_null}
use cact.Parser.Decl.{parse_decl}
use cact.Parser.Expr.{parse_expr}
use cact.Parser.Halting.{
  done, Done-bind, Done-mono, Done-lift, Done-if, At, At-mono, Ends, Eats, Eats-Ends,
}
use cact.Parser.Halting.Checks.{test_null-Halts}
use cact.Parser.Halting.Decl.{parse_decl-Eats}
use cact.Parser.Halting.Expr.{Fuel, parse_expr-Ends}
use cact.Parser.Halting.Expr.Starts.{expr_starts}
use cact.Parser.Halting.Steps.{
  advance_token-Eats, parser_error-Done, consume-Ends, consume-Eats, on_match-Done, on_match-Eats,
  synchronize-Done,
}
use cact.Parser.Halting.Stmt.Simple.{
  first_kinds, starts_first, or_false, one_of, return_end, jump_end, expr_stmt-Eats, decl_first,
}
use cact.Parser.Monad.{Parser, Parse, ◌>>=◌, ◌>>◌, pure, lift, when}
use cact.Parser.Stmt.{
  stmt_starts, push_if, at_end, parse_return, parse_jump, parse_expr_stmt, parse_stmt, parse_if,
  parse_while, parse_block, parse_items, parse_item,
}
use cact.Parser.Tokens.{
  mem_kind, advance_token, parser_error, consume, on_match, synchronize, token_to_type,
}
use cact.Platform.{Platform}
use cact.Platform.Laws.{CharLaws}
use cact.Sema.{sema_scope_enter, sema_scope_leave}
use cact.Token.{
  eof, kw_const, kw_if, kw_else, kw_while, kw_break, kw_continue, kw_return, l_paren, r_paren,
  l_brace, r_brace, same_kind,
}
use cact.Types.{TypeStore, is_null}

module _ ⦃env : Platform⦄ (laws : CharLaws env) (n : ℕ) (s : TypeStore) where
  -- The start of a round, and then the rest of it in front of a token.
  recovered :
      (panic : Bool) (acc : Nodes) (next : Parse Nodes) (c : ℕ) (p : Parser)
      → At n s c p
      → same_kind p.curr.kind eof ≡ false
      → ((q : Parser) → At n s c q → same_kind q.curr.kind eof ≡ false → Ends n s c (next q))
      → Ends n s c
          ((do when panic synchronize; ended ← at_end; if panic && ended then pure acc else next) p)
  recovered true acc next c p w e h =
      Done-bind (synchronize p) _ (synchronize-Done laws n s c p w) λ _ q (v, _).
        Done-if (same_kind q.curr.kind r_brace || same_kind q.curr.kind eof) _ _ q (λ _. done v)
          (λ e'. h q v (or_false _ _ e'))
  recovered false acc next c p w e h = h p w e

  mutual
    unfolding parse_stmt

    stmt :
        (f c : ℕ) (p : Parser)
        → At n s c p
        → Fuel laws n s 5 f c
        → Eats n s first_kinds c (parse_stmt f) p
    stmt zero c p w h = absurd (omega (arith, w.room))
    stmt (suc f) c p w h =
        on_match-Eats laws n s
          (kw_while ∷ kw_return ∷ kw_break ∷ kw_continue ∷ l_brace ∷ expr_starts) kw_if (parse_if f)
          _ c p w refl (λ q v. if_end f (suc c) q v (omega arith))
          λ _.
            on_match-Eats laws n s (kw_return ∷ kw_break ∷ kw_continue ∷ l_brace ∷ expr_starts)
              kw_while (parse_while f) _ c p w refl (λ q v. while_end f (suc c) q v (omega arith))
              λ _.
                on_match-Eats laws n s (kw_break ∷ kw_continue ∷ l_brace ∷ expr_starts) kw_return
                  (parse_return f) _ c p w refl
                  (λ q v. return_end laws n s f (suc c) q v (omega arith))
                  λ _.
                    on_match-Eats laws n s (kw_continue ∷ l_brace ∷ expr_starts) kw_break
                      (parse_jump nd_break) _ c p w refl
                      (λ q v. jump_end laws n s nd_break (suc c) q v)
                      λ _.
                        on_match-Eats laws n s (l_brace ∷ expr_starts) kw_continue
                          (parse_jump nd_continue) _ c p w refl
                          (λ q v. jump_end laws n s nd_continue (suc c) q v)
                          λ _.
                            Done-if (same_kind p.curr.kind l_brace) (parse_block f)
                              (parse_expr_stmt f) p
                              (λ e.
                                Done-mono _ (block_end f c p w e (omega arith))
                                  λ _ r. At-mono (suc c) _ (rw e (omega arith)))
                              (λ e.
                                Done-mono _ (expr_stmt-Eats laws n s f c p w (omega arith))
                                  λ _ r v. rw e v)

    if_end : (f c : ℕ) (p : Parser) → At n s c p → Fuel laws n s 6 f c → Ends n s c (parse_if f p)
    if_end zero c p w h = absurd (omega (arith, w.room))
    if_end (suc f) c p w h =
        Done-bind (consume l_paren "Expect '('" p) _ (consume-Ends laws n s _ _ c p w) λ _ q v.
          Done-bind (parse_expr f q) _ (parse_expr-Ends laws n s f c q v (omega arith))
            λ test p₁ w₁.
              Done-bind (consume r_paren "Expect ')'" p₁) _ (consume-Ends laws n s _ _ c p₁ w₁)
                λ _ p₂ w₂.
                  Done-bind (parse_stmt f p₂) _
                    (Eats-Ends first_kinds (parse_stmt f) p₂ (stmt f c p₂ w₂ (omega arith)))
                    λ a p₃ w₃.
                      Done-bind {R = λ _ r. At n s c r}
                        (on_match kw_else (parse_stmt f) (pure unwritten) p₃) _
                        (on_match-Done laws n s kw_else _ _ c p₃ w₃ refl
                          (λ r u _.
                            Done-mono _
                              (Eats-Ends first_kinds (parse_stmt f) r
                                (stmt f (suc c) r u (omega arith)))
                              λ _ t. At-mono (suc c) c (omega arith))
                          (λ _. done w₃))
                        λ b p₄ w₄. done w₄

    while_end :
        (f c : ℕ) (p : Parser) → At n s c p → Fuel laws n s 6 f c → Ends n s c (parse_while f p)
    while_end zero c p w h = absurd (omega (arith, w.room))
    while_end (suc f) c p w h =
        Done-bind (consume l_paren "Expect '('" p) _ (consume-Ends laws n s _ _ c p w) λ _ q v.
          Done-bind (parse_expr f q) _ (parse_expr-Ends laws n s f c q v (omega arith))
            λ test p₁ w₁.
              Done-bind (consume r_paren "Expect ')'" p₁) _ (consume-Ends laws n s _ _ c p₁ w₁)
                λ _ p₂ w₂.
                  Done-bind (parse_stmt f p₂) _
                    (Eats-Ends first_kinds (parse_stmt f) p₂ (stmt f c p₂ w₂ (omega arith)))
                    λ a p₃ w₃. done w₃

    block_end :
        (f c : ℕ) (p : Parser)
        → At n s c p
        → same_kind p.curr.kind l_brace ≡ true
        → Fuel laws n s 1 f c
        → Ends n s (suc c) (parse_block f p)
    block_end zero c p w e h = absurd (omega (arith, w.room))
    block_end (suc f) c p w e h =
        Done-bind (consume l_brace "Expect '{' to begin block" p) _
          (consume-Eats laws n s l_brace _ c p w refl e)
          λ _ q v.
            let inner : Parser = record q { sema = sema_scope_enter q.sema } in
            Done-bind (parse_items f "Unexpected token in block" no_nodes inner) _
              (items f "Unexpected token in block" no_nodes (suc c) inner
                (record { room = v.room; follows = v.follows; running = v.running }) (omega arith))
              λ xs p₁ w₁.
                let outer : Parser = record p₁ { sema = sema_scope_leave p₁.sema } in
                Done-bind (consume r_brace "Expect '}' to end block" outer) _
                  (consume-Ends laws n s _ _ (suc c) outer
                    (record { room = w₁.room; follows = w₁.follows; running = w₁.running }))
                  λ _ p₂ w₂. done w₂

    items :
        (f : ℕ) (msg : String) (acc : Nodes) (c : ℕ) (p : Parser)
        → At n s c p
        → Fuel laws n s 7 f c
        → Ends n s c (parse_items f msg acc p)
    items zero msg acc c p w h = absurd (omega (arith, w.room))
    items (suc f) msg acc c p w h =
        Done-if (same_kind p.curr.kind r_brace || same_kind p.curr.kind eof) _ _ p (λ _. done w)
          (λ e.
            recovered p.panic_mode acc (parse_item f msg acc) c p w (or_false _ _ e)
              λ q v e'. item f msg acc c q v e' (omega arith))

    item :
        (f : ℕ) (msg : String) (acc : Nodes) (c : ℕ) (p : Parser)
        → At n s c p
        → same_kind p.curr.kind eof ≡ false
        → Fuel laws n s 6 f c
        → Ends n s c (parse_item f msg acc p)
    item zero msg acc c p w e h = absurd (omega (arith, w.room))
    item (suc f) msg acc c p w e h =
        let k = p.curr.kind in
        let is_decl = not (is_null (token_to_type p.ctx.types k)) || same_kind k kw_const in
        Done-if (not is_decl && not (mem_kind k stmt_starts)) _ _ p
          (λ _.
            Done-bind (parser_error msg p) _ (parser_error-Done laws n s msg c p w) λ _ q (v, same).
              Done-bind (advance_token q) _ (advance_token-Eats laws n s c q v (rw same e)) λ _ r u.
                Done-mono _ (items f msg acc (suc c) r u (omega arith))
                  λ _ t. At-mono (suc c) c (omega arith))
          (λ e'.
            Done-bind ((if is_decl then parse_decl f else parse_stmt f) p) _
              (Done-if is_decl (parse_decl f) (parse_stmt f) p
                (λ d. Done-mono _ (parse_decl-Eats laws n f s c p w (omega arith)) λ _ r.
                  At-mono _ (suc c) (
                    rw (decl_first laws n s p.ctx.types k w.follows.well_formed.ready d)
                      (omega arith)))
                (λ d.
                  Done-mono _ (stmt f c p w (omega arith))
                    λ _ r. At-mono _ (suc c) (rw (starts_first k (one_of _ _ d e')) (omega arith))))
              λ x q v.
                Done-bind (lift (test_null x) q) _
                  (Done-lift {R = λ _ r. At n s (suc c) r} (test_null x) q (test_null-Halts x)
                    (λ _. v))
                  λ absent r u.
                    Done-mono _ (items f msg (push_if acc x absent) (suc c) r u (omega arith))
                      λ _ t. At-mono (suc c) c (omega arith))

  pub parse_items-Ends :
      (f : ℕ) (msg : String) (acc : Nodes) (c : ℕ) (p : Parser)
      → At n s c p
      → Fuel laws n s 7 f c
      → Ends n s c (parse_items f msg acc p)
  parse_items-Ends = items
