-- ===== src/Parser/Halting/Decl/Arrays.antt =====
-- The dimensions of arrays and the lists of initializers are parsed to their end.
use cact.Prelude.{ℕ, zero, suc, ◌≤◌, ◌≡◌, refl, true, arith, if◌then◌else◌}
use cact.Ast.{Nodes, no_nodes, push_node}
use cact.Outcome.{Outcome}
use cact.Parser.Decl.{prev_int, parse_array_dims, parse_initializer_list, parse_inits}
use cact.Parser.Expr.{parse_assign}
use cact.Parser.Halting.{Done, done, Done-bind, Done-mono, Done-if, At, At-mono, Ends}
use cact.Parser.Halting.Checks.{make_array-Ends}
use cact.Parser.Halting.Decl.Starts.{At-here, At-there, read_int-Done}
use cact.Parser.Halting.Expr.{Fuel, parse_assign-Ends}
use cact.Parser.Halting.Steps.{
  advance_token-Ends, parser_error-Ends, consume-Ends, consume-Eats, on_match-Done, when-Ends,
}
use cact.Parser.Monad.{Parser, pure, when}
use cact.Parser.Tokens.{advance_token, parser_error, consume, make_array}
use cact.Platform.{Platform}
use cact.Platform.Laws.{CharLaws}
use cact.Token.{lit_int, l_brace, r_brace, l_bracket, r_bracket, comma, same_kind}
use cact.Token.Value.{value_int}
use cact.Types.{TypePtr, TypeStore}
use cact.Types.Ranked.Kept.{PlainIn}

module _ ⦃env : Platform⦄ (laws : CharLaws env) (n : ℕ) where
  -- A type that is no function, behind at least `c` tokens.
  abbrev pub MadeType : TypeStore → ℕ → TypePtr → Parser → Type 0
  MadeType s c ty q = At n s c q × PlainIn q.ctx.types ty

  pub MadeType-there :
      {c d : ℕ} {s : TypeStore} {p : Parser} (o : Outcome (TypePtr × Parser))
      → d ≤ c
      → At n s c p
      → Done (MadeType p.ctx.types c) o
      → Done (MadeType s d) o
  MadeType-there {c} {d} o k w h = Done-mono o h λ ty q (v, pl). (At-mono c d k (At-there w v), pl)

  pub parse_array_dims-Ends :
      (f : ℕ) (s : TypeStore) (base : TypePtr) (c : ℕ) (p : Parser)
      → At n s c p
      → PlainIn s base
      → Fuel laws n s 1 f c
      → Done (MadeType s c) (parse_array_dims f base p)
  unfolding parse_array_dims
  parse_array_dims-Ends zero s base c p w pl h = absurd (omega (arith, w.room))
  parse_array_dims-Ends (suc f) s base c p w pl h =
      on_match-Done laws n s l_bracket _ _ c p w refl
        (λ q v _.
          on_match-Done laws n s lit_int _ _ (suc c) q v refl
            (λ p₁ w₁ _.
              Done-bind (prev_int p₁) _
                (read_int-Done {R = λ _ r. At n s (suc (suc c)) r} p₁ (value_int p₁.prev.value)
                  λ _. w₁)
                λ len p₂ w₂.
                  Done-bind (consume r_bracket "Expect ']'" p₂) _
                    (consume-Ends laws n s _ _ (suc (suc c)) p₂ w₂)
                    λ _ p₃ w₃.
                      Done-bind (make_array base len p₃) _
                        (make_array-Ends n s base len (suc (suc c)) p₃ w₃
                          (w₃.follows.still_plain base pl))
                        λ ty p₄ (w₄, pl').
                          MadeType-there (parse_array_dims f ty p₄) (omega arith) w₄ (
                            parse_array_dims-Ends f p₄.ctx.types ty (suc (suc c)) p₄ (At-here w₄)
                              pl' (omega arith)))
            (λ _.
              Done-bind (parser_error "Array size must be constant int" q) _
                (parser_error-Ends laws n s _ (suc c) q v)
                λ _ p₁ w₁.
                  Done-bind (when (same_kind p₁.curr.kind r_bracket) advance_token p₁) _
                    (when-Ends laws n s _ advance_token (suc c) p₁ w₁
                      (λ _. advance_token-Ends laws n s (suc c) p₁ w₁))
                    λ _ p₂ w₂.
                      Done-mono _ (parse_array_dims-Ends f s base (suc c) p₂ w₂ pl (omega arith))
                        λ ty q (u, pl'). (At-mono (suc c) c (omega arith) u, pl')))
        (λ _. done (w, w.follows.still_plain base pl))

  module _ (s : TypeStore) where
    mutual
      unfolding parse_initializer_list

      pub list_end :
          (f c : ℕ) (p : Parser)
          → At n s c p
          → same_kind p.curr.kind l_brace ≡ true
          → Fuel laws n s 1 f c
          → Ends n s c (parse_initializer_list f p)
      list_end zero c p w e h = absurd (omega (arith, w.room))
      list_end (suc f) c p w e h =
          Done-bind (consume l_brace "Expect '{'" p) _
            (consume-Eats laws n s l_brace _ c p w refl e)
            λ _ q v.
              Done-bind
                ((if same_kind q.curr.kind r_brace then pure no_nodes else parse_inits f no_nodes)
                  q)
                _
                (Done-if (same_kind q.curr.kind r_brace) _ _ q (λ _. done v)
                  (λ _. inits_end f no_nodes (suc c) q v (omega arith)))
                λ xs p₁ w₁.
                  Done-bind (consume r_brace "Expect '}'" p₁) _
                    (consume-Ends laws n s _ _ (suc c) p₁ w₁)
                    λ _ p₂ w₂. done (At-mono (suc c) c (omega arith) w₂)

      inits_end :
          (f : ℕ) (acc : Nodes) (c : ℕ) (p : Parser)
          → At n s c p
          → Fuel laws n s 5 f c
          → Ends n s c (parse_inits f acc p)
      inits_end zero acc c p w h = absurd (omega (arith, w.room))
      inits_end (suc f) acc c p w h =
          Done-bind
            ((if same_kind p.curr.kind l_brace then parse_initializer_list f else parse_assign f) p)
            _
            (Done-if (same_kind p.curr.kind l_brace) _ _ p (λ e. list_end f c p w e (omega arith))
              (λ _. parse_assign-Ends laws n s f c p w (omega arith)))
            λ x q v.
              on_match-Done laws n s comma _ _ c q v refl
                (λ r u _.
                  Done-mono _ (inits_end f (push_node acc x) (suc c) r u (omega arith))
                    λ _ t. At-mono (suc c) c (omega arith))
                (λ _. done v)
