-- ===== src/Parser/Halting/TopLevel/Params.antt =====
-- The parameters of a function are parsed to their end.
use cact.Prelude.{ℕ, zero, suc, refl, false, arith}
use cact.Outcome.{Outcome}
use cact.Parser.Decl.{prev_int, parse_array_dims}
use cact.Parser.Halting.{Done, done, Done-bind, Done-mono, At, At-mono, Ends}
use cact.Parser.Halting.Checks.{define_var-Ends, make_array-Ends, add_param-Ends}
use cact.Parser.Halting.Decl.Arrays.{MadeType, MadeType-there, parse_array_dims-Ends}
use cact.Parser.Halting.Decl.Starts.{At-here, At-there, read_int-Done}
use cact.Parser.Halting.Expr.{Fuel}
use cact.Parser.Halting.Steps.{
  advance_token-Ends, parser_error-Ends, consume-Ends, on_match-Done, when-Ends,
}
use cact.Parser.Monad.{Parser, pure, when}
use cact.Parser.Tokens.{
  advance_token, parser_error, consume, on_match, token_to_type, define_var, make_array,
}
use cact.Parser.TopLevel.{param_array, parse_param, parse_params}
use cact.Platform.{Platform}
use cact.Platform.Laws.{CharLaws}
use cact.Token.{ident, lit_int, l_bracket, r_bracket, comma}
use cact.Token.Value.{value_int}
use cact.Types.{TypePtr, TypeStore, is_null}
use cact.Types.Ranked.Kept.{PlainIn, token_to_type-Plain}

module _ ⦃env : Platform⦄ (laws : CharLaws env) (n : ℕ) where
  module _ (s : TypeStore) where
    param_array-Ends :
        (f : ℕ) (arg_ty : TypePtr) (c : ℕ) (p : Parser)
        → At n s c p
        → PlainIn s arg_ty
        → Fuel laws n s 1 f c
        → Done (MadeType laws n s c) (param_array f arg_ty p)
    unfolding param_array
    param_array-Ends f arg_ty c p w pl h =
        Done-bind {R = MadeType laws n s c} (on_match r_bracket (make_array arg_ty 0) _ p)
          (λ ty. parse_array_dims f ty)
          (on_match-Done laws n s r_bracket _ _ c p w refl
            (λ q v _.
              weaker (make_array arg_ty 0 q)
                (make_array-Ends n s arg_ty 0 (suc c) q v (v.follows.still_plain arg_ty pl)))
            (λ _.
              on_match-Done laws n s lit_int _ _ c p w refl
                (λ q v _.
                  Done-bind (prev_int q) _
                    (read_int-Done {R = λ _ r. At n s (suc c) r} q (value_int q.prev.value) λ _. v)
                    λ len p₁ w₁.
                      Done-bind (consume r_bracket "Expect ']'" p₁) _
                        (consume-Ends laws n s _ _ (suc c) p₁ w₁)
                        λ _ p₂ w₂. weaker (make_array arg_ty len p₂) (
                          make_array-Ends n s arg_ty len (suc c) p₂ w₂
                            (w₂.follows.still_plain arg_ty pl)))
                (λ _.
                  Done-bind (parser_error "Expect array size" p) _
                    (parser_error-Ends laws n s _ c p w)
                    λ _ q v. done (v, v.follows.still_plain arg_ty pl))))
          λ ty q (v, pl').
            MadeType-there laws n (parse_array_dims f ty q) (omega arith) v
              (parse_array_dims-Ends laws n f q.ctx.types ty c q (At-here v) pl' h)
      where
        weaker :
            (o : Outcome (TypePtr × Parser))
            → Done (MadeType laws n s (suc c)) o
            → Done (MadeType laws n s c) o
        weaker o k = Done-mono o k λ ty q (v, pl'). (At-mono (suc c) c (omega arith) v, pl')

  param_end :
      (f : ℕ) (s : TypeStore) (func_ty : TypePtr) (c : ℕ) (p : Parser)
      → At n s c p
      → Fuel laws n s 1 f c
      → Ends n s c (parse_param f func_ty p)
  unfolding parse_param
  param_end f s func_ty c p w h =
      let t = p.ctx.types in
      let arg_ty = token_to_type t p.curr.kind in
      let plain = token_to_type-Plain t p.curr.kind w.follows.well_formed.ready in
      Done-bind (when (is_null arg_ty) (parser_error "Expect param type") p) _
        (when-Ends laws n t (is_null arg_ty) _ c p (At-here w)
          (λ _. parser_error-Ends laws n t _ c p (At-here w)))
        λ _ p₁ w₁. Done-bind (advance_token p₁) _ (advance_token-Ends laws n t c p₁ w₁) λ _ p₂ w₂.
          Done-bind (consume ident "Expect param name" p₂) _ (consume-Ends laws n t _ _ c p₂ w₂)
            λ _ p₃ w₃.
              Done-bind {R = MadeType laws n t c}
                (on_match l_bracket (param_array f arg_ty) (pure arg_ty) p₃) _
                (on_match-Done laws n t l_bracket _ _ c p₃ w₃ refl
                  (λ q v _.
                    Done-mono _ (param_array-Ends t f arg_ty (suc c) q v plain (omega arith))
                      λ ty r (u, pl). (At-mono (suc c) c (omega arith) u, pl))
                  (λ _. done (w₃, w₃.follows.still_plain arg_ty plain)))
                λ ty p₄ (w₄, pl).
                  let u = p₄.ctx.types in
                  Done-bind (define_var _ ty false p₄) _
                    (define_var-Ends n u _ ty false c p₄ (At-here w₄))
                    λ symbol p₅ w₅.
                      Done-mono _
                        (add_param-Ends n u func_ty ty c p₅ w₅ (w₅.follows.still_plain ty pl))
                        λ _ r v. At-there w (At-there w₄ v)

  module _ (s : TypeStore) where
    pub params_end :
        (f : ℕ) (func_ty : TypePtr) (c : ℕ) (p : Parser)
        → At n s c p
        → Fuel laws n s 2 f c
        → Ends n s c (parse_params f func_ty p)
    unfolding parse_params
    params_end zero func_ty c p w h = absurd (omega (arith, w.room))
    params_end (suc f) func_ty c p w h =
        Done-bind (parse_param f func_ty p) _ (param_end f s func_ty c p w (omega arith)) λ _ q v.
          on_match-Done laws n s comma _ _ c q v refl
            (λ r u _.
              Done-mono _ (params_end f func_ty (suc c) r u (omega arith))
                λ _ t. At-mono (suc c) c (omega arith))
            (λ _. done v)
