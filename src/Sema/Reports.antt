-- ===== src/Sema/Reports.antt =====
-- The checks of sema.c change nothing of the context but by reports.
use cact.Prelude.{ℕ, inl, inr, Bool, true, false, Option, some, Bool-cases}
use cact.Ast.{BinaryKind, Base, Node, test_null, type_of_node, var_of_node}
use cact.Context.{Context, report_if}
use cact.Context.Errors.{Reported, silent, spoken, Reported-if}
use cact.Outcome.{Ensures, Ensures-bind, Ensures-all}
use cact.Platform.{Platform}
use cact.Sema.{
  types_match, OperatorClass, arithmetic, modulo, comparison, logical, other, class_of, Sema,
  operator_type, checked_operands, sema_analyze_binary, assigns_const, sema_analyze_assign,
  returned_type, check_return, sema_analyze_return,
}
use cact.Types.{TypePtr, ptr_eq}

module _ ⦃env : Platform⦄ where
  operator_type-Reported :
      (ctx : Context) (tok : Option ℕ) (lhs : TypePtr) (c : OperatorClass) (old : TypePtr)
      → Reported ctx (operator_type ctx tok lhs c old).1
  unfolding operator_type
  operator_type-Reported ctx tok lhs arithmetic old = Reported-if _ tok _ silent
  operator_type-Reported ctx tok lhs modulo old = Reported-if _ tok _ silent
  operator_type-Reported ctx tok lhs comparison old = silent
  operator_type-Reported ctx tok lhs logical old = Reported-if _ tok _ silent
  operator_type-Reported ctx tok lhs other old = silent

  checked_operands-Reported :
      (ctx : Context) (tok : Option ℕ) (kind : BinaryKind) (old lhs : TypePtr) (same : Bool)
      → Reported ctx (checked_operands ctx tok kind old lhs same).1
  unfolding checked_operands
  checked_operands-Reported ctx tok kind old lhs true =
      operator_type-Reported ctx tok lhs (class_of kind) old
  checked_operands-Reported ctx tok kind old lhs false = spoken tok _ silent

  pub sema_analyze_binary-Reported :
      (ctx : Context) (kind : BinaryKind) (base : Base) (lhs rhs : Node)
      → Ensures (λ r. Reported ctx r.1) (sema_analyze_binary ctx kind base lhs rhs)
  unfolding sema_analyze_binary
  sema_analyze_binary-Reported ctx kind base lhs rhs = Ensures-all _ (type_of_node lhs) _ λ lhs_ty.
      Ensures-all _ (type_of_node rhs) _ λ rhs_ty.
        Ensures-all _ (types_match ctx.types lhs_ty rhs_ty) _
          λ same. checked_operands-Reported ctx _ kind base.node_type lhs_ty same

  pub sema_analyze_assign-Reported :
      (ctx : Context) (base : Base) (lhs rhs : Node)
      → Ensures (λ r. Reported ctx r.1) (sema_analyze_assign ctx base lhs rhs)
  unfolding sema_analyze_assign
  sema_analyze_assign-Reported ctx base lhs rhs = Ensures-all _ (var_of_node lhs) _ λ var.
      Ensures-all _ (type_of_node lhs) _ λ lhs_ty. Ensures-all _ (type_of_node rhs) _ λ rhs_ty.
        Ensures-all _
          (types_match
            (report_if (assigns_const var) ctx (some base.tok.span_start)
              "Cannot assign to const variable").types
            lhs_ty rhs_ty)
          _ λ same. Reported-if _ _ _ (Reported-if _ _ _ silent)

  check_return-Reported :
      (ctx : Context) (ret : TypePtr) (tok : Option ℕ) (actual : TypePtr)
      → Ensures (λ ctx'. Reported ctx ctx') (check_return ctx ret tok actual)
  unfolding check_return
  check_return-Reported ctx ret tok actual = elim (Bool-cases (ptr_eq ret ctx.types.ty_void)) [
    | inl e ↦ rw e (Reported-if _ tok _ silent)
    | inr e ↦ rw e (elim (Bool-cases (ptr_eq actual ctx.types.ty_void)) [
      | inl e' ↦ rw e' (spoken tok _ silent)
      | inr e' ↦
          rw e'
            (Ensures-all _ (types_match ctx.types ret actual) _ λ same. Reported-if _ tok _ silent)
    ])
  ]

  pub sema_analyze_return-Reported :
      (ctx : Context) (s : Sema) (base : Base) (lhs : Node)
      → Ensures (λ r. Reported ctx r.1) (sema_analyze_return ctx s base lhs)
  unfolding sema_analyze_return
  sema_analyze_return-Reported ctx s base lhs = Ensures-all _ (test_null lhs) _ λ absent.
      Ensures-all _ (returned_type ctx.types lhs absent) _ λ actual.
        Ensures-bind _ _ (check_return ctx s.curr_func_ret _ actual) _
          (check_return-Reported ctx s.curr_func_ret _ actual) λ ctx' r. r
