-- ===== src/Parser/Halting/TopLevel.antt =====
-- Functions and the declarations of the top level are parsed to their end.
pub mod Params
use cact.Prelude.{
  ℕ, suc, ◌+◌, ◌≡◌, refl, ap, ◌∙◌, inl, inr, Bool, true, false, not, ◌&&◌, none, arith,
  if◌then◌else◌, Bool-cases, and_true,
}
use cact.Ast.{Node, null, no_nodes}
use cact.Outcome.{ok}
use cact.Parser.Halting.{
  cost, cost-le, Done, done, Done-bind, Done-mono, Done-if, At, At-mono, Ends, Eats,
}
use cact.Parser.Halting.Checks.{define_var-Ends, make_func-Ends}
use cact.Parser.Halting.Decl.{parse_var_decl_list-Ends, decl_cost}
use cact.Parser.Halting.Decl.Starts.{
  type_kinds, decl_starts, is_null-token_to_type, type_name-eof, At-here, At-there,
}
use cact.Parser.Halting.Expr.{Fuel}
use cact.Parser.Halting.Steps.{
  advance_token-Ends, advance_token-Eats, parser_error-Ends, consume-Ends, Matched, match_kind-Done,
  when-Ends,
}
use cact.Parser.Halting.Stmt.{parse_items-Ends}
use cact.Parser.Halting.TopLevel.Params.{params_end}
use cact.Parser.Monad.{Parser, Parse, ◌>>=◌, ◌>>◌, pure, when}
use cact.Parser.Stmt.{parse_items}
use cact.Parser.Tokens.{
  mem_kind, advance_token, parser_error, consume, match_kind, token_to_type, define_var,
}
use cact.Parser.TopLevel.{
  parse_params, set_func_ret, enter_scope, leave_scope, make_func, parse_func_scope, parse_func,
  parse_named, parse_top_level,
}
use cact.Platform.{Platform}
use cact.Platform.Laws.{CharLaws}
use cact.Sema.{Sema, sema_scope_enter, sema_scope_leave}
use cact.Token.{ident, kw_const, l_paren, r_paren, l_brace, r_brace, same_kind}
use cact.Types.{TypePtr, TypeStore, is_null}
use cact.Types.Ranked.Kept.{PlainIn, token_to_type-Plain}
use cact.Types.Shape.{IsReady}

module _ ⦃env : Platform⦄ (laws : CharLaws env) (n : ℕ) where
  module _ (s : TypeStore) where
    func_scope_end :
        (f : ℕ) (func_ty : TypePtr) (c : ℕ) (p : Parser)
        → At n s c p
        → Fuel laws n s 7 f c
        → Ends n s c (parse_func_scope f func_ty p)
    unfolding parse_func_scope
    func_scope_end f func_ty c p w h =
        Done-bind (when (not (same_kind p.curr.kind r_paren)) (parse_params f func_ty) p) _
          (when-Ends laws n s (not (same_kind p.curr.kind r_paren)) (parse_params f func_ty) c p w
            (λ _. params_end laws n s f func_ty c p w (omega arith)))
          λ _ p₁ w₁.
            Done-bind (consume r_paren "Expect ')'" p₁) _ (consume-Ends laws n s _ _ c p₁ w₁)
              λ _ p₂ w₂.
                Done-bind (consume l_brace "Expect '{'" p₂) _ (consume-Ends laws n s _ _ c p₂ w₂)
                  λ _ p₃ w₃.
                    Done-bind (parse_items f "Unexpected token in function body" no_nodes p₃) _
                      (parse_items-Ends laws n s f _ no_nodes c p₃ w₃ h)
                      λ xs p₄ w₄.
                        Done-bind (consume r_brace "Expect '}'" p₄) _
                          (consume-Ends laws n s _ _ c p₄ w₄) λ _ p₅ w₅. done w₅

    -- A change of the scopes changes nothing that counts.
    pub At-sema :
        (c : ℕ) (p : Parser) (sema : Sema) → At n s c p → At n s c (record p { sema = sema })
    At-sema c p sema w = record { room = w.room; follows = w.follows; running = w.running }

    -- A function behind its parameters' parenthesis.
    abbrev func_rest : ℕ → TypePtr → ℕ → TypePtr → Parse Node
    func_rest f ret_ty x func_ty = do
      func_sym ← define_var x func_ty false
      set_func_ret ret_ty
      enter_scope
      body ← parse_func_scope f func_ty
      leave_scope
      set_func_ret none
      pure body

    func_rest-Ends :
        (f : ℕ) (ret_ty : TypePtr) (x : ℕ) (func_ty : TypePtr) (c : ℕ) (p : Parser)
        → At n s c p
        → Fuel laws n s 7 f c
        → Ends n s c (func_rest f ret_ty x func_ty p)
    func_rest-Ends f ret_ty x func_ty c p w h =
        Done-bind (define_var x func_ty false p) _ (define_var-Ends n s x func_ty false c p w)
          λ symbol p₃ w₃.
            let inner : Parser = record p₃ {
              sema = sema_scope_enter (record (p₃.sema) { curr_func_ret = ret_ty });
            } in
            Done-bind (parse_func_scope f func_ty inner)
              (λ body. do leave_scope; set_func_ret none; pure body)
              (func_scope_end f func_ty c inner (At-sema c p₃ inner.sema w₃) h)
              λ body p₄ w₄.
                done (At-sema c p₄ (record (sema_scope_leave p₄.sema) { curr_func_ret = none }) w₄)

    func_end :
        (f : ℕ) (ret_ty : TypePtr) (x c : ℕ) (p : Parser)
        → At n s c p
        → PlainIn s ret_ty
        → Fuel laws n s 7 f c
        → Ends n s c (parse_func f ret_ty x p)
    unfolding parse_func
    func_end f ret_ty x c p w pl h =
        Done-bind (consume l_paren "" p) _ (consume-Ends laws n s _ _ c p w) λ _ p₁ w₁.
          Done-bind (make_func ret_ty p₁) (func_rest f ret_ty x)
            (make_func-Ends n s ret_ty c p₁ w₁ (w₁.follows.still_plain ret_ty pl))
            λ func_ty p₂ w₂. func_rest-Ends f ret_ty x func_ty c p₂ w₂ h

    named_decl_end :
        (f : ℕ) (ty : TypePtr) (is_const : Bool) (c : ℕ) (p : Parser)
        → At n s c p
        → PlainIn s ty
        → Fuel laws n s 7 f c
        → Ends n s c (parse_named f ty is_const p)
    unfolding parse_named
    named_decl_end f ty is_const c p w pl h =
        Done-if (not (same_kind p.curr.kind ident)) _ _ p
          (λ _.
            Done-bind (parser_error "Expect name" p) _ (parser_error-Ends laws n s _ c p w)
              λ _ q v. done v)
          (λ _.
            Done-bind (consume ident "Expect name" p) _ (consume-Ends laws n s _ _ c p w) λ _ q v.
              Done-if (same_kind q.curr.kind l_paren) _ _ q (λ _. func_end f ty _ c q v pl h)
                (λ _. parse_var_decl_list-Ends laws n s f ty _ is_const c q v pl (omega arith)))

  -- Behind `const`, or behind nothing, which `is_const` tells.
  abbrev top_rest : ℕ → Bool → TypePtr → Parse Node
  top_rest f is_const ty =
      if is_null ty && not is_const
      then pure null
      else if is_null ty
      then (do parser_error "Expect type"; advance_token; pure null)
      else (do advance_token; parse_named f ty is_const)

  top_rest-Ends :
      (f : ℕ) (s : TypeStore) (is_const : Bool) (c : ℕ) (p : Parser)
      → At n s c p
      → Fuel laws n s 7 f c
      → Done
          (λ _ q. At n s (cost (not (is_null (token_to_type p.ctx.types p.curr.kind))) + c) q)
          (top_rest f is_const (token_to_type p.ctx.types p.curr.kind) p)
  top_rest-Ends f s is_const c p w h =
      let t = p.ctx.types in
      let ty = token_to_type t p.curr.kind in
      let plain = token_to_type-Plain t p.curr.kind w.follows.well_formed.ready in
      Done-if (is_null ty && not is_const) (pure null) _ p
        (λ e. done (At-mono c _ (rw (and_true (is_null ty) (not is_const) e).0 (omega arith)) w))
        (λ _.
          Done-if (is_null ty) _ _ p
            (λ e.
              Done-bind (parser_error "Expect type" p) _ (parser_error-Ends laws n s _ c p w)
                λ _ q v.
                  Done-bind (advance_token q) _ (advance_token-Ends laws n s c q v)
                    λ _ r u. done (At-mono c _ (rw e (omega arith)) u))
            (λ e.
              Done-bind (advance_token p) _
                (advance_token-Eats laws n t c p (At-here w) (type_name-eof t p.curr.kind e))
                λ _ q v.
                  Done-mono _ (named_decl_end t f ty is_const (suc c) q v plain (omega arith))
                    λ _ r u. At-there w (At-mono (suc c) _ (rw e (omega arith)) u)))

  pub parse_top_level-Eats :
      (f : ℕ) (s : TypeStore) (c : ℕ) (p : Parser)
      → At n s c p
      → Fuel laws n s 7 f c
      → Eats n s decl_starts c (parse_top_level f) p
  unfolding parse_top_level
  parse_top_level-Eats f s c p w h =
      Done-bind (match_kind kw_const p) _ (match_kind-Done laws n s kw_const c p w refl) go
    where
      go :
          (is_const : Bool) (q : Parser)
          → Matched laws n s kw_const c p is_const q
          → Done
              (λ _ r. At n s (cost (mem_kind p.curr.kind decl_starts) + c) r)
              (top_rest f is_const (token_to_type q.ctx.types q.curr.kind) q)
      go true q (e, v) =
          Done-mono _ (top_rest-Ends f s true (suc c) q v (omega arith))
            λ _ r. At-mono _ _ (omega (arith, cost-le (mem_kind p.curr.kind decl_starts)))
      go false q (e, same) = rw same (
          Done-mono _ (top_rest-Ends f s false c p w h) λ _ r.
            At-mono _ _ (
              omega
                (arith, decl_cost laws n p.ctx.types p.curr.kind w.follows.well_formed.ready e)))

  -- What begins no declaration is left where it is.
  pub parse_top_level-none :
      (f : ℕ) (p : Parser)
      → IsReady p.ctx.types
      → mem_kind p.curr.kind decl_starts ≡ false
      → parse_top_level f p ≡ ok (null, p)
  unfolding parse_top_level match_kind
  parse_top_level-none f p r m = elim (Bool-cases (same_kind p.curr.kind kw_const)) [
    | inl e ↦ let e' : true ≡ false = rw e at m in cc e'
    | inr e ↦
        let m' : mem_kind p.curr.kind type_kinds ≡ false = rw e at m in
        let no_type : is_null (token_to_type p.ctx.types p.curr.kind) ≡ true =
          is_null-token_to_type p.ctx.types p.curr.kind r ∙ ap not m' in
        rw (e, no_type) refl
  ]
