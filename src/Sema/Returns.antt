-- ===== src/Sema/Returns.antt =====
-- The typing rules of assignments and returns, on types apart from addresses.
use cact.Prelude.{
  ℕ, ◌<◌, String, ◌≡◌, refl, ap, ◌∙◌, inl, inr, Bool, true, false, not, ◌&&◌, Option, none, some,
  ◌==◌, if◌then◌else◌, Bool-cases,
}
use cact.Ast.{
  SemaSymbol, Base, Node, null, indeterminate, var_node, test_null, type_of_node, var_of_node,
}
use cact.Context.{Message, text, Context, ctx_error, report_if}
use cact.Outcome.{Outcome, fault, out_of_fuel, ok, ◌>>=◌}
use cact.Platform.{Platform}
use cact.Sema.{
  type_fuel, types_match, Sema, assigns_const, sema_analyze_assign, returned_type, check_return,
  sema_analyze_return,
}
use cact.Types.{TypePtr}
use cact.Types.Equality.{type_eq-same_shape}
use cact.Types.Globals.{ptr_eq-void}
use cact.Types.Shape.{Shape, void_shape, same_shape, depth, Denotes, IsReady, shape_index}

void-same : (t u : Shape) → (shape_index t == 0) ≡ true → same_shape t u ≡ (shape_index u == 0)
unfolding same_shape
void-same void_shape void_shape h = refl
void-same void_shape _ h = refl
void-same _ _ h = cc

void-other :
    (t u : Shape)
    → (shape_index t == 0) ≡ false
    → (shape_index u == 0) ≡ true
    → same_shape t u ≡ false
unfolding same_shape
void-other void_shape _ h h' = cc
void-other _ void_shape h h' = refl
void-other _ _ h h' = cc

module _ ⦃env : Platform⦄ where
  -- Silent if the rules allow it, and otherwise a report.
  abbrev pub Judged : Context → Option ℕ → Bool → Context → Type 0
  Judged ctx tok true ctx' = ctx' ≡ ctx
  Judged ctx tok false ctx' = (msg : Message) × (ctx' ≡ ctx_error ctx tok msg)

  -- The check comes to an answer; the node gets the type `ty`.
  abbrev pub Judges : Context → Option ℕ → Bool → TypePtr → Outcome (TypePtr × Context) → Type 0
  Judges ctx tok good ty (ok (ty', ctx')) = (ty' ≡ ty) × Judged ctx tok good ctx'
  Judges ctx tok good ty fault = ⊥
  Judges ctx tok good ty out_of_fuel = ⊥

  report_if-Judged :
      (ctx : Context) (tok : Option ℕ) (good : Bool) (msg : String)
      → Judged ctx tok good (report_if (not good) ctx tok msg)
  report_if-Judged ctx tok true msg = refl
  report_if-Judged ctx tok false msg = (text msg, refl)

  pub ctx_error-types :
      (ctx : Context) (tok : Option ℕ) (msg : Message) → (ctx_error ctx tok msg).types ≡ ctx.types
  unfolding ctx_error
  ctx_error-types ctx tok msg = elim (Bool-cases ctx.panic_mode) [
    | inl e ↦ rw e refl
    | inr e ↦ rw e refl
  ]

  Judged-types :
      (ctx : Context) (tok : Option ℕ) (good : Bool) (ctx' : Context)
      → Judged ctx tok good ctx'
      → ctx'.types ≡ ctx.types
  Judged-types ctx tok true ctx' j = ap (λ c. c.types) j
  Judged-types ctx tok false ctx' (msg, e) = ap (λ c. c.types) e ∙ ctx_error-types ctx tok msg

  report_if-types :
      (bad : Bool) (ctx : Context) (tok : Option ℕ) (msg : String)
      → (report_if bad ctx tok msg).types ≡ ctx.types
  report_if-types true ctx tok msg = ctx_error-types ctx tok (text msg)
  report_if-types false ctx tok msg = refl

  -- What comes behind a report is not written.
  ctx_error_twice :
      (ctx : Context) (tok : Option ℕ) (msg msg' : Message)
      → ctx_error (ctx_error ctx tok msg) tok msg' ≡ ctx_error ctx tok msg
  unfolding ctx_error
  ctx_error_twice ctx tok msg msg' = elim (Bool-cases ctx.panic_mode) [
    | inl e ↦ rw e refl
    | inr e ↦ rw e refl
  ]

  twice-Judged :
      (ctx : Context) (tok : Option ℕ) (bad good : Bool) (msg msg' : String)
      → Judged ctx tok (not bad && good) (report_if (not good) (report_if bad ctx tok msg) tok msg')
  twice-Judged ctx tok true true msg msg' = (text msg, refl)
  twice-Judged ctx tok true false msg msg' =
      (text msg, ctx_error_twice ctx tok (text msg) (text msg'))
  twice-Judged ctx tok false good msg msg' = report_if-Judged ctx tok good msg'

  -- A variable whose symbol is const.
  abbrev pub is_const_variable : Node → Bool
  is_const_variable (var_node _ (some symbol)) = symbol.is_const
  is_const_variable _ = false

  variable :
      (n : Node) {ty : TypePtr}
      → type_of_node n ≡ ok ty
      → (var : Option (Option SemaSymbol)) × (var_of_node n ≡ ok var)
        × (assigns_const var ≡ is_const_variable n)
  variable null e = cc
  variable indeterminate e = cc
  variable (var_node b none) e = (some none, refl, refl)
  variable (var_node b (some v)) e = (some (some v), refl, refl)
  variable _ e = (none, refl, refl)

  -- The branches of `check_return`, by whether the two types are void.
  decide_return :
      (ctx : Context) (tok : Option ℕ) (ret_void actual_void same : Bool) (compared : Outcome Bool)
      → (ret_void ≡ true → same ≡ actual_void)
      → (ret_void ≡ false → actual_void ≡ true → same ≡ false)
      → compared ≡ ok same
      → (ctx' : Context) × ((if ret_void
            then ok (report_if (not actual_void) ctx tok "Void function should not return a value")
            else if actual_void
            then ok (ctx_error ctx tok (text "Non-void function must return a value"))
            else compared >>= λ b. ok (report_if (not b) ctx tok "Return type mismatch"))
          ≡ ok ctx')
        × Judged ctx tok same ctx'
  decide_return ctx tok true v same compared h h' e =
      rw (h refl) (_, refl, report_if-Judged ctx tok v "Void function should not return a value")
  decide_return ctx tok false true same compared h h' e =
      rw (h' refl refl) (_, refl, (text "Non-void function must return a value", refl))
  decide_return ctx tok false false same compared h h' e =
      rw e (_, refl, report_if-Judged ctx tok same "Return type mismatch")

  module _ (ctx : Context) (ready : IsReady ctx.types) where
    -- An assignment to a left side of type `t` of a value of type `u`: the check always answers, is
    -- silent exactly if the left side is no const variable and the types are the same, and otherwise
    -- makes one report at the node's token. The node gets the type of the left side either way.
    pub sema_analyze_assign-Judges :
        (base : Base) (lhs rhs : Node) {lhs_ty rhs_ty : TypePtr} {t u : Shape}
        → type_of_node lhs ≡ ok lhs_ty
        → type_of_node rhs ≡ ok rhs_ty
        → Denotes ctx.types lhs_ty t
        → Denotes ctx.types rhs_ty u
        → depth t < type_fuel ctx.types.heap
        → Judges ctx
            (some base.tok.span_start)
            (not (is_const_variable lhs) && same_shape t u)
            lhs_ty
            (sema_analyze_assign ctx base lhs rhs)
    unfolding sema_analyze_assign
    sema_analyze_assign-Judges base lhs rhs {lhs_ty} {rhs_ty} {t} {u} el er dl dr fits =
        let (var, ev, ec) = variable lhs el in
        let tok = some base.tok.span_start in
        let ctx₁ = report_if (is_const_variable lhs) ctx tok "Cannot assign to const variable" in
        rw
          (
            ev,
            ec,
            el,
            er,
            report_if-types (is_const_variable lhs) ctx tok "Cannot assign to const variable",
            type_eq-same_shape ready (type_fuel ctx.types.heap) dl dr fits,
          )
          (
            refl,
            twice-Judged ctx tok (is_const_variable lhs) (same_shape t u)
                "Cannot assign to const variable" "Type mismatch in assignment",
          )

    check_return-Judged :
        (tok : Option ℕ) {ret actual : TypePtr} {t u : Shape}
        → Denotes ctx.types ret t
        → Denotes ctx.types actual u
        → depth t < type_fuel ctx.types.heap
        → (ctx' : Context) × (check_return ctx ret tok actual ≡ ok ctx')
          × Judged ctx tok (same_shape t u) ctx'
    unfolding check_return
    check_return-Judged tok {ret} {actual} {t} {u} dr da fits =
        rw (ptr_eq-void ready dr, ptr_eq-void ready da)
          (decide_return ctx tok (shape_index t == 0) (shape_index u == 0) (same_shape t u)
            (types_match ctx.types ret actual) (void-same t u) (void-other t u)
            (type_eq-same_shape ready (type_fuel ctx.types.heap) dr da fits))

    -- A return of a value of type `u` in a function that returns `t`: the check always answers, is
    -- silent exactly if the types are the same, reports at the node's token otherwise, and the node
    -- gets the type void. (An expression of type void may be returned where the function is void.)
    pub sema_analyze_return-Judges :
        (s : Sema) (base : Base) (lhs : Node) {lhs_ty : TypePtr} {t u : Shape}
        → test_null lhs ≡ ok false
        → type_of_node lhs ≡ ok lhs_ty
        → Denotes ctx.types s.curr_func_ret t
        → Denotes ctx.types lhs_ty u
        → depth t < type_fuel ctx.types.heap
        → Judges ctx
            (some base.tok.span_start)
            (same_shape t u)
            ctx.types.ty_void
            (sema_analyze_return ctx s base lhs)
    unfolding sema_analyze_return returned_type
    sema_analyze_return-Judges s base lhs {lhs_ty} {t} {u} present el dr da fits =
        let (ctx', e, j) = check_return-Judged (some base.tok.span_start) dr da fits in
        rw (present, returned_type, el, e)
          (
            ap (λ st. st.ty_void)
                (Judged-types ctx (some base.tok.span_start) (same_shape t u) ctx' j),
            j,
          )
