-- ===== src/Parser/Crashes/Return.antt =====
-- src/parser.c, the statement `return;`: what is returned is not written, and read by the check.
use cact.Prelude.{
  ℕ, ◌≡◌, refl, inl, inr, Bool, true, false, not, none, some, if◌then◌else◌, ==_iff, Bool-cases,
}
use cact.Ast.{nd_return, Base, null, indeterminate, unary_node}
use cact.Context.{Context, report_if}
use cact.Outcome.{fault, ok}
use cact.Parser.Monad.{Parser, continue, pure}
use cact.Parser.Stmt.{parse_return}
use cact.Parser.Tokens.{advance_token, consume, typed, checked}
use cact.Platform.{Platform}
use cact.Sema.{Sema, returned_type, check_return, sema_analyze_return}
use cact.Token.{semicolon, same_kind}
use cact.Types.{TypePtr, ptr_eq}

ptr_eq_refl : (p : TypePtr) → ptr_eq p p ≡ true
ptr_eq_refl none = refl
ptr_eq_refl (some a) = (==_iff a a).1 refl

module _ ⦃env : Platform⦄ where
  -- What the check of a return without a value leaves: a report unless the function is void.
  abbrev pub void_checked : Context → TypePtr → Base → Context
  void_checked ctx ret base =
      report_if (not (ptr_eq ret ctx.types.ty_void)) ctx (some base.tok.span_start)
        "Non-void function must return a value"

  sema_analyze_return-null :
      (ctx : Context) (s : Sema) (base : Base)
      → sema_analyze_return ctx s base null
        ≡ ok (
          (void_checked ctx s.curr_func_ret base).types.ty_void,
          void_checked ctx s.curr_func_ret base,
        )
  unfolding sema_analyze_return returned_type check_return
  sema_analyze_return-null ctx s base =
      elim (Bool-cases (ptr_eq s.curr_func_ret ctx.types.ty_void)) [
        | inl e ↦ rw (e, ptr_eq_refl ctx.types.ty_void) refl
        | inr e ↦ rw (e, ptr_eq_refl ctx.types.ty_void) refl
      ]

  sema_analyze_return-unwritten :
      (ctx : Context) (s : Sema) (base : Base)
      → sema_analyze_return ctx s base indeterminate ≡ fault
  unfolding sema_analyze_return
  sema_analyze_return-unwritten ctx s base = refl

  -- The node's token and no type yet.
  abbrev fresh_base : Parser → Base
  fresh_base p = record { tok = p.prev; node_type = none }

  -- The end of the statement, on a block that holds zeros or does not.
  returned :
      (b : Bool) (base : Base) (q : Parser)
      → continue
          (checked
            (λ ctx. sema_analyze_return ctx q.sema base (if b then null else indeterminate))
            q)
          (λ ty. pure (unary_node nd_return (typed base ty) (if b then null else indeterminate)))
        ≡ (if b
            then (let ctx' = void_checked q.ctx q.sema.curr_func_ret base in
                ok (
                  unary_node nd_return (typed base ctx'.types.ty_void) null,
                  record q { ctx = ctx' },
                ))
            else fault)
  returned true base q = rw (continue, sema_analyze_return-null q.ctx q.sema base) refl
  returned false base q = rw (continue, sema_analyze_return-unwritten q.ctx q.sema base) refl

  -- The statement `return;`, at its semicolon: in blocks that hold zeros it is checked as a return
  -- without a value, and in others the run ends in the read of a pointer that was not written.
  pub parse_return-empty :
      (f : ℕ) (p q : Parser)
      → same_kind p.curr.kind semicolon ≡ true
      → advance_token p ≡ ok (tt, q)
      → parse_return f p ≡ (
          if env.zeroed
          then (let ctx' = void_checked q.ctx q.sema.curr_func_ret (fresh_base p) in
              ok (
                unary_node nd_return (typed (fresh_base p) ctx'.types.ty_void) null,
                record q { ctx = ctx' },
              ))
          else fault)
  unfolding parse_return consume
  parse_return-empty f p q h next = rw (h, consume, h, next) (returned env.zeroed (fresh_base p) q)
