-- ===== src/Parser/Halting/Decl.antt =====
-- Declarations are parsed to their end, and every type that they make stands for no function.
pub mod Starts
pub mod Arrays
use cact.Prelude.{
  ℕ, zero, suc, ◌+◌, ◌≤◌, ◌≡◌, refl, inl, inr, Bool, true, false, not, none, some, arith,
  if◌then◌else◌, Bool-cases,
}
use cact.Ast.{Base, null, Nodes, no_nodes, push_node, test_null}
use cact.Context.{report_if}
use cact.Parser.Decl.{
  parse_array_dims, parse_initializer_list, init_mismatch, checked_init, parse_declarator,
  parse_declarators, parse_var_decl_list, parse_decl,
}
use cact.Parser.Expr.{parse_expr}
use cact.Parser.Halting.{
  cost, cost-le, Done, done, Done-bind, Done-mono, Done-lift, Done-if, At, At-mono, Ends, Eats,
}
use cact.Parser.Halting.Checks.{report_if-types, test_null-Halts, At-types, define_var-Ends}
use cact.Parser.Halting.Decl.Arrays.{parse_array_dims-Ends, list_end}
use cact.Parser.Halting.Decl.Starts.{
  type_kinds, decl_starts, is_null-token_to_type, type_name-eof, init_mismatch-Halts, At-here,
  At-there,
}
use cact.Parser.Halting.Expr.{Fuel, parse_expr-Ends}
use cact.Parser.Halting.Steps.{
  advance_token-Ends, advance_token-Eats, parser_error-Ends, consume-Ends, Matched, match_kind-Done,
  on_match-Done, when-Ends,
}
use cact.Parser.Monad.{Parser, ◌>>=◌, ◌>>◌, pure, lift, when}
use cact.Parser.Tokens.{
  mem_kind, advance_token, parser_error, check_kind, consume, match_kind, on_match, token_to_type,
  prev_name, define_var,
}
use cact.Platform.{Platform}
use cact.Platform.Laws.{CharLaws}
use cact.Token.{TokenKind, ident, kw_const, l_brace, assign, semicolon, comma, same_kind}
use cact.Types.{TypePtr, TypeStore, is_null}
use cact.Types.Ranked.Kept.{PlainIn, token_to_type-Plain}
use cact.Types.Shape.{IsReady}

module _ ⦃env : Platform⦄ (laws : CharLaws env) (n : ℕ) where
  module _ (s : TypeStore) where
    checked_init-Ends :
        (f : ℕ) (ty : TypePtr) (base : Base) (c : ℕ) (p : Parser)
        → At n s c p
        → Fuel laws n s 4 f c
        → Ends n s c (checked_init f ty base p)
    unfolding checked_init
    checked_init-Ends f ty base c p w h =
        Done-bind (parse_expr f p) _ (parse_expr-Ends laws n s f c p w h) λ x q v.
          Done-bind (lift (test_null x) q) _
            (Done-lift {R = λ _ r. At n s c r} (test_null x) q (test_null-Halts x) (λ _. v))
            λ absent p₁ w₁.
              Done-bind (lift (init_mismatch p₁.ctx.types ty x absent) p₁) _
                (Done-lift {R = λ _ r. At n s c r} (init_mismatch p₁.ctx.types ty x absent) p₁
                  (init_mismatch-Halts p₁.ctx.types ty x absent w₁.follows.well_formed) (λ _. w₁))
                λ bad p₂ w₂. done (
                  At-types n s c p₂
                    (report_if bad p₂.ctx (some base.tok.span_start) "Init type mismatch")
                    (report_if-types bad p₂.ctx (some base.tok.span_start) "Init type mismatch") w₂)

    declarator_end :
        (f : ℕ) (base_ty : TypePtr) (is_const : Bool) (x c : ℕ) (p : Parser)
        → At n s c p
        → PlainIn s base_ty
        → Fuel laws n s 4 f c
        → Ends n s c (parse_declarator f base_ty is_const x p)
    unfolding parse_declarator
    declarator_end f base_ty is_const x c p w pl h =
        Done-bind (parse_array_dims f base_ty p) _
          (parse_array_dims-Ends laws n f s base_ty c p w pl (omega arith))
          λ ty q (v, _).
            Done-bind (define_var x ty is_const q) _ (define_var-Ends n s x ty is_const c q v)
              λ symbol p₁ w₁.
                let base : Base = record { tok = p₁.prev; node_type = none } in
                Done-bind {R = λ _ r. At n s c r} (on_match assign _ _ p₁) _
                  (on_match-Done laws n s assign _ _ c p₁ w₁ refl
                    (λ p₂ w₂ _.
                      Done-mono _
                        (Done-if (same_kind p₂.curr.kind l_brace) (parse_initializer_list f)
                          (checked_init f ty base) p₂
                          (λ e. list_end laws n s f (suc c) p₂ w₂ e (omega arith))
                          (λ _. checked_init-Ends f ty base (suc c) p₂ w₂ (omega arith)))
                        λ _ t. At-mono (suc c) c (omega arith))
                    (λ _.
                      Done-bind
                        (when is_const (parser_error "Const variable must be initialized") p₁) _
                        (when-Ends laws n s is_const _ c p₁ w₁
                          (λ _. parser_error-Ends laws n s _ c p₁ w₁))
                        λ _ p₂ w₂. done w₂))
                  λ init p₃ w₃. done w₃

    declarators_end :
        (f : ℕ) (base_ty : TypePtr) (is_const : Bool) (x : ℕ) (acc : Nodes) (c : ℕ) (p : Parser)
        → At n s c p
        → PlainIn s base_ty
        → Fuel laws n s 5 f c
        → Ends n s c (parse_declarators f base_ty is_const x acc p)
    unfolding parse_declarators
    declarators_end zero base_ty is_const x acc c p w pl h = absurd (omega (arith, w.room))
    declarators_end (suc f) base_ty is_const x acc c p w pl h =
        Done-bind (parse_declarator f base_ty is_const x p) _
          (declarator_end f base_ty is_const x c p w pl (omega arith))
          λ d q v.
            on_match-Done laws n s comma _ _ c q v refl
              (λ p₁ w₁ _.
                Done-if (same_kind p₁.curr.kind ident) _ _ p₁
                  (λ _.
                    Done-bind (advance_token p₁) _ (advance_token-Ends laws n s (suc c) p₁ w₁)
                      λ _ p₂ w₂.
                        Done-mono _
                          (declarators_end f base_ty is_const _ (push_node acc d) (suc c) p₂ w₂ pl
                            (omega arith))
                          λ _ t. At-mono (suc c) c (omega arith))
                  (λ _.
                    Done-bind (parser_error "Expect variable name" p₁) _
                      (parser_error-Ends laws n s _ (suc c) p₁ w₁)
                      λ _ p₂ w₂. done (At-mono (suc c) c (omega arith) w₂)))
              (λ _. done v)

    pub parse_var_decl_list-Ends :
        (f : ℕ) (base_ty : TypePtr) (x : ℕ) (is_const : Bool) (c : ℕ) (p : Parser)
        → At n s c p
        → PlainIn s base_ty
        → Fuel laws n s 5 f c
        → Ends n s c (parse_var_decl_list f base_ty x is_const p)
    unfolding parse_var_decl_list
    parse_var_decl_list-Ends f base_ty x is_const c p w pl h =
        Done-bind (parse_declarators f base_ty is_const x no_nodes p) _
          (declarators_end f base_ty is_const x no_nodes c p w pl h)
          λ ds q v.
            Done-bind (consume semicolon "Expect ';'" q) _ (consume-Ends laws n s _ _ c q v)
              λ _ r u. done u

    -- The name and what follows, behind the type.
    named_end :
        (f : ℕ) (base_ty : TypePtr) (is_const : Bool) (c : ℕ) (p : Parser)
        → At n s c p
        → PlainIn s base_ty
        → Fuel laws n s 5 f c
        → Ends n s c (
            (if not (same_kind p.curr.kind ident)
                then (do parser_error "Expect variable name"; pure null)
                else (do
                  advance_token
                  name ← prev_name
                  parse_var_decl_list f base_ty name is_const))
              p)
    named_end f base_ty is_const c p w pl h =
        Done-if (not (same_kind p.curr.kind ident)) _ _ p
          (λ _.
            Done-bind (parser_error "Expect variable name" p) _ (parser_error-Ends laws n s _ c p w)
              λ _ q v. done v)
          (λ _.
            Done-bind (advance_token p) _ (advance_token-Ends laws n s c p w)
              λ _ q v. parse_var_decl_list-Ends f base_ty _ is_const c q v pl h)

  -- A declaration behind `const`, or behind nothing: it uses up a type name if there is one.
  typed_end :
      (f : ℕ) (s : TypeStore) (is_const : Bool) (c : ℕ) (p : Parser)
      → At n s c p
      → Fuel laws n s 5 f c
      → Done
          (λ _ q. At n s (cost (not (is_null (token_to_type p.ctx.types p.curr.kind))) + c) q)
          ((if is_null (token_to_type p.ctx.types p.curr.kind)
              then (do parser_error "Expect type name"; pure null)
              else (do
                advance_token
                named ← check_kind ident
                if not named then (do parser_error "Expect variable name"; pure null) else (do
                  advance_token
                  name ← prev_name
                  parse_var_decl_list f (token_to_type p.ctx.types p.curr.kind) name is_const)))
            p)
  typed_end f s is_const c p w h =
      let t = p.ctx.types in
      let ty = token_to_type t p.curr.kind in
      let plain = token_to_type-Plain t p.curr.kind w.follows.well_formed.ready in
      Done-if (is_null ty) _ _ p
        (λ e.
          Done-bind (parser_error "Expect type name" p) _ (parser_error-Ends laws n s _ c p w)
            λ _ q v. done (At-mono c _ (rw e (omega arith)) v))
        (λ e.
          Done-bind (advance_token p) _
            (advance_token-Eats laws n t c p (At-here w) (type_name-eof t p.curr.kind e))
            λ _ q v.
              Done-mono _ (named_end t f ty is_const (suc c) q v plain (omega arith))
                λ _ r u. At-there w (At-mono (suc c) _ (rw e (omega arith)) u))

  pub decl_cost :
      (s : TypeStore) (k : TokenKind)
      → IsReady s
      → same_kind k kw_const ≡ false
      → cost (mem_kind k decl_starts) ≤ cost (not (is_null (token_to_type s k)))
  decl_cost s k r e =
      rw (e, is_null-token_to_type s k r)
        (elim (Bool-cases (mem_kind k type_kinds)) [
          | inl m ↦ rw m (omega arith)
          | inr m ↦ rw m (omega arith)
        ])

  pub parse_decl-Eats :
      (f : ℕ) (s : TypeStore) (c : ℕ) (p : Parser)
      → At n s c p
      → Fuel laws n s 5 f c
      → Eats n s decl_starts c (parse_decl f) p
  unfolding parse_decl
  parse_decl-Eats f s c p w h =
      Done-bind (match_kind kw_const p) _ (match_kind-Done laws n s kw_const c p w refl) go
    where
      go :
          (is_const : Bool) (q : Parser)
          → Matched laws n s kw_const c p is_const q
          → Done
              (λ _ r. At n s (cost (mem_kind p.curr.kind decl_starts) + c) r)
              ((if is_null (token_to_type q.ctx.types q.curr.kind)
                  then (do parser_error "Expect type name"; pure null)
                  else (do
                    advance_token
                    named ← check_kind ident
                    if not named then (do parser_error "Expect variable name"; pure null) else (do
                      advance_token
                      name ← prev_name
                      parse_var_decl_list f (token_to_type q.ctx.types q.curr.kind) name is_const)))
                q)
      go true q (e, v) =
          Done-mono _ (typed_end f s true (suc c) q v (omega arith))
            λ _ r. At-mono _ _ (omega (arith, cost-le (mem_kind p.curr.kind decl_starts)))
      go false q (e, same) = rw same (
          Done-mono _ (typed_end f s false c p w h) λ _ r.
            At-mono _ _
              (omega (arith, decl_cost p.ctx.types p.curr.kind w.follows.well_formed.ready e)))
