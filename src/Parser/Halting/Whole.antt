-- ===== src/Parser/Halting/Whole.antt =====
-- The whole parse comes to an end: every round of the loop over the top level uses up a token.
pub mod Recovery
pub mod Builtins
use cact.Prelude.{
  ℕ, zero, suc, ◌+◌, ◌*◌, ◌≤◌, ◌≡◌, inl, inr, Bool, true, false, arith, if◌then◌else◌, Bool-cases,
}
use cact.Ast.{Node, Nodes, no_nodes, push_node, test_null}
use cact.Outcome.{Outcome, fault, out_of_fuel, ok}
use cact.Parser.Halting.{
  left, Done, done, faulted, Done-bind, Done-mono, Done-lift, At, At-mono, Ends,
}
use cact.Parser.Halting.Checks.{test_null-Halts}
use cact.Parser.Halting.Decl.Starts.{decl_starts, At-here, At-there}
use cact.Parser.Halting.Expr.{Fuel}
use cact.Parser.Halting.Steps.{advance_token-Ends}
use cact.Parser.Halting.TopLevel.{At-sema, parse_top_level-Eats, parse_top_level-none}
use cact.Parser.Halting.Whole.Builtins.{builtins_of, builtins_end}
use cact.Parser.Halting.Whole.Recovery.{recover-Done}
use cact.Parser.Monad.{Parser, Parse, continue, ◌>>=◌, ◌>>◌, pure, lift, when}
use cact.Parser.Tokens.{mem_kind, advance_token, match_kind, on_match}
use cact.Parser.TopLevel.{
  leave_scope, parse_top_level, install_builtins, recover, parse_globals, parse_unit, parser_parse,
}
use cact.Platform.{Platform}
use cact.Platform.Laws.{CharLaws}
use cact.Sema.{sema_scope_enter, sema_scope_leave}
use cact.Token.{eof, same_kind}
use cact.Types.{TypeStore}
use cact.Types.Ranked.Kept.{WellFormed, Follows-refl, token_to_type-Plain}

module _ ⦃env : Platform⦄ (laws : CharLaws env) (n : ℕ) (s : TypeStore) where
  -- What follows a round of the loop over the top level.
  abbrev next_round : ℕ → Nodes → Node → Parse Nodes
  next_round f globals x = do
    absent ← lift (test_null x)
    when absent recover
    parse_globals f (if absent then globals else push_node globals x)

  recovered : (absent : Bool) (c : ℕ) (p : Parser) → At n s c p → Ends n s c (when absent recover p)
  recovered true c p w = Done-mono _ (recover-Done laws n s c p w) λ _ q (v, _). v
  recovered false c p w = done w

  -- At the end there is nothing to use up.
  on_match-eof :
      {A : Type 0} {R : A → Parser → Type 0} (a b : Parse A) (c : ℕ) (p : Parser)
      → At n s c p
      → ((q : Parser) → At n s c q → Done R (a q))
      → (same_kind p.curr.kind eof ≡ false → Done R (b p))
      → Done R (on_match eof a b p)
  unfolding match_kind
  on_match-eof {A} {R} a b c p w ha hb = elim (Bool-cases (same_kind p.curr.kind eof)) [
    | inl e ↦ rw e (ended (advance_token p) (advance_token-Ends laws n s c p w))
    | inr e ↦ rw e (hb e)
  ]
    where
      ended :
          (o : Outcome (Unit {0} × Parser))
          → Ends n s c o
          → Done R (continue (continue o (λ _. pure true)) (λ matched. if matched then a else b))
      ended (ok (u, q)) (done v) = ha q v
      ended fault v = faulted
      ended out_of_fuel v = elim v [ ]

  globals_end :
      (f : ℕ) (globals : Nodes) (c : ℕ) (p : Parser)
      → At n s c p
      → Fuel laws n s 8 f c
      → Ends n s c (parse_globals f globals p)
  unfolding parse_globals
  globals_end zero globals c p w h = absurd (omega (arith, w.room))
  globals_end (suc f) globals c p w h =
      on_match-eof (pure globals) (λ q. continue (parse_top_level f q) (next_round f globals)) c p w
        (λ q v. done v)
        λ e. elim (Bool-cases (mem_kind p.curr.kind decl_starts)) [
          | inl m ↦
              Done-bind (parse_top_level f p) (next_round f globals)
                (parse_top_level-Eats laws n f s c p w (omega arith))
                λ x q v'.
                  let v = At-mono _ (suc c) (rw m (omega arith)) v' in
                  Done-bind (lift (test_null x) q) _
                    (Done-lift {R = λ _ r. At n s (suc c) r} (test_null x) q (test_null-Halts x)
                      (λ _. v))
                    λ absent q' u.
                      Done-bind (when absent recover q') _ (recovered absent (suc c) q' u) λ _ r t.
                        Done-mono _ (globals_end f _ (suc c) r t (omega arith))
                          λ _ _. At-mono (suc c) c (omega arith)
          | inr m ↦ rw (parse_top_level-none laws n f p w.follows.well_formed.ready m) (
              Done-bind (recover p) (λ _. parse_globals f globals) (recover-Done laws n s c p w)
                λ _ r (_, moved).
                  Done-mono _ (globals_end f globals (suc c) r (moved m e) (omega arith))
                    λ _ _. At-mono (suc c) c (omega arith))
        ]

module _ ⦃env : Platform⦄ (laws : CharLaws env) where
  -- The parse in the new scope.
  unit_end :
      (n f : ℕ) (s : TypeStore) (p : Parser)
      → At n s 0 p
      → Fuel laws n s 8 f 0
      → Ends n s 0 (parse_unit f p)
  unfolding parse_unit install_builtins
  unit_end n f s p w h =
      let t = p.ctx.types in
      Done-bind (builtins_of laws n t t p) (λ _. parse_globals f no_nodes)
        (builtins_end laws n t t (λ k. token_to_type-Plain t k w.follows.well_formed.ready) 0 p
          (At-here w))
        λ _ q v. Done-mono _ (globals_end laws n t f no_nodes 0 q v h) λ _ r u. At-there w u

  -- Where letters count as alphanumeric and the byte 0 is in no class: on a well-formed arena, and
  -- with no loop of the lexer cut off before, with 32 units of fuel for each token that may be left
  -- and 8 more, a parse comes to an end, and no loop of the lexer is cut off. It ends at a read
  -- through a pointer that leads nowhere, or with a list of globals, and then no more tokens may be
  -- left than at first, and the arena is well formed.
  pub parser_parse-Ends :
      (f : ℕ) (p : Parser)
      → WellFormed p.ctx.types
      → p.lex.cut_off ≡ false
      → 32 * left p + 8 ≤ f
      → Ends (left p) p.ctx.types 0 (parser_parse f p)
  unfolding parser_parse
  parser_parse-Ends f p ready on h =
      let n = left p in
      let s = p.ctx.types in
      let w : At n s 0 p = record {
        room = omega arith;
        follows = Follows-refl s ready;
        running = on;
      } in
      let inner : Parser = record p { sema = sema_scope_enter p.sema } in
      Done-bind (parse_unit f inner) (λ globals. do leave_scope; pure globals)
        (unit_end n f s inner (At-sema laws n s 0 p inner.sema w) (omega (arith, h)))
        λ globals q v. done (At-sema laws n s 0 q (sema_scope_leave q.sema) v)
