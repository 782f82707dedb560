-- ===== src/Sema/Operators.antt =====
-- The typing rules that `sema_analyze_binary` enforces, on types apart from addresses.
use cact.Prelude.{
  ℕ, ◌<◌, ◌≡◌, refl, subst, inl, inr, Bool, true, false, Option, none, some, if◌then◌else◌,
  Bool-cases,
}
use cact.Ast.{
  BinaryKind, nd_add, nd_sub, nd_mul, nd_div, nd_mod, nd_eq, nd_ne, nd_lt, nd_le, nd_gt, nd_ge,
  nd_log_and, nd_log_or, nd_assign, nd_array_access, Base, Node, type_of_node,
}
use cact.Context.{Message, text, Context, ctx_error}
use cact.Outcome.{Outcome, fault, out_of_fuel, ok}
use cact.Platform.{Platform}
use cact.Sema.{
  type_fuel, arithmetic, modulo, logical, class_of, operator_type, checked_operands,
  sema_analyze_binary,
}
use cact.Types.{TypePtr}
use cact.Types.Equality.{type_eq-same_shape}
use cact.Types.Globals.{is_numeric, ptr_eq-bool, ptr_eq-int, type_is_arithmetic-is_numeric}
use cact.Types.Shape.{
  Shape, bool_shape, int_shape, same_shape, depth, Denotes, bools, ints, IsReady,
}

-- The type of an operation on two operands of the type `t`, for each operator; none where the
-- operator does not take the type.
abbrev pub rule : Shape → BinaryKind → Option Shape
rule t nd_add = if is_numeric t then some t else none
rule t nd_sub = if is_numeric t then some t else none
rule t nd_mul = if is_numeric t then some t else none
rule t nd_div = if is_numeric t then some t else none
rule int_shape nd_mod = some int_shape
rule _ nd_mod = none
rule t nd_eq = some bool_shape
rule t nd_ne = some bool_shape
rule t nd_lt = some bool_shape
rule t nd_le = some bool_shape
rule t nd_gt = some bool_shape
rule t nd_ge = some bool_shape
rule bool_shape nd_log_and = some bool_shape
rule _ nd_log_and = none
rule bool_shape nd_log_or = some bool_shape
rule _ nd_log_or = none
rule t nd_assign = none
rule t nd_array_access = none

-- The kinds of nodes that are operators of expressions.
abbrev pub is_operator : BinaryKind → Bool
is_operator nd_assign = false
is_operator nd_array_access = false
is_operator _ = true

-- The type of an operation on operands of two types, where there is one.
abbrev pub operation_shape : BinaryKind → Shape → Shape → Option Shape
operation_shape kind t u = if same_shape t u then rule t kind else none

module _ ⦃env : Platform⦄ where
  -- With a result type, nothing is reported and the node gets it; with none, there is a report.
  abbrev pub Verdict : Context → Option ℕ → Option Shape → TypePtr → Context → Type 0
  Verdict ctx tok (some r) ty ctx' = (ctx' ≡ ctx) × Denotes ctx.types ty r
  Verdict ctx tok none ty ctx' = (msg : Message) × (ctx' ≡ ctx_error ctx tok msg)

  -- The check comes to an answer, and it is the verdict.
  abbrev pub Answers : Context → Option ℕ → Option Shape → Outcome (TypePtr × Context) → Type 0
  Answers ctx tok r (ok (ty, ctx')) = Verdict ctx tok r ty ctx'
  Answers ctx tok r fault = ⊥
  Answers ctx tok r out_of_fuel = ⊥

  module _ (ctx : Context) (ready : IsReady ctx.types) where
    arithmetic_Verdict :
        (tok : Option ℕ) (lhs : TypePtr) (t : Shape) (old : TypePtr)
        → Denotes ctx.types lhs t
        → Verdict ctx tok
            (if is_numeric t then some t else none)
            (operator_type ctx tok lhs arithmetic old).0
            (operator_type ctx tok lhs arithmetic old).1
    unfolding operator_type
    arithmetic_Verdict tok lhs t old d =
        rw (type_is_arithmetic-is_numeric ready d) (elim (Bool-cases (is_numeric t)) [
          | inl e ↦ rw e (refl, d)
          | inr e ↦ rw e (text "Arithmetic operator requires numeric operands", refl)
        ])

    modulo_Verdict :
        (tok : Option ℕ) (lhs : TypePtr) (t : Shape) (old : TypePtr)
        → Denotes ctx.types lhs t
        → Verdict ctx tok
            (rule t nd_mod)
            (operator_type ctx tok lhs modulo old).0
            (operator_type ctx tok lhs modulo old).1
    unfolding operator_type
    modulo_Verdict tok lhs int_shape old d = rw (ptr_eq-int ready d) (refl, ints refl)
    modulo_Verdict tok lhs _ old d =
        rw (ptr_eq-int ready d) (text "Modulo operator requires integer operands", refl)

    logical_Verdict :
        (tok : Option ℕ) (lhs : TypePtr) (t : Shape) (old : TypePtr)
        → Denotes ctx.types lhs t
        → Verdict ctx tok
            (rule t nd_log_and)
            (operator_type ctx tok lhs logical old).0
            (operator_type ctx tok lhs logical old).1
    unfolding operator_type
    logical_Verdict tok lhs bool_shape old d = rw (ptr_eq-bool ready d) (refl, bools refl)
    logical_Verdict tok lhs _ old d =
        rw (ptr_eq-bool ready d) (text "Logical operator requires boolean operands", refl)

    rule_log_or : (t : Shape) → rule t nd_log_and ≡ rule t nd_log_or
    rule_log_or bool_shape = refl
    rule_log_or _ = refl

    operator_type-Verdict :
        (tok : Option ℕ) (lhs : TypePtr) (t : Shape) (kind : BinaryKind) (old : TypePtr)
        → Denotes ctx.types lhs t
        → is_operator kind ≡ true
        → Verdict ctx tok
            (rule t kind)
            (operator_type ctx tok lhs (class_of kind) old).0
            (operator_type ctx tok lhs (class_of kind) old).1
    unfolding operator_type
    operator_type-Verdict tok lhs t nd_add old d n = arithmetic_Verdict tok lhs t old d
    operator_type-Verdict tok lhs t nd_sub old d n = arithmetic_Verdict tok lhs t old d
    operator_type-Verdict tok lhs t nd_mul old d n = arithmetic_Verdict tok lhs t old d
    operator_type-Verdict tok lhs t nd_div old d n = arithmetic_Verdict tok lhs t old d
    operator_type-Verdict tok lhs t nd_mod old d n = modulo_Verdict tok lhs t old d
    operator_type-Verdict tok lhs t nd_log_and old d n = logical_Verdict tok lhs t old d
    operator_type-Verdict tok lhs t nd_log_or old d n =
        subst
          (λ r.
            Verdict ctx tok r (operator_type ctx tok lhs logical old).0
              (operator_type ctx tok lhs logical old).1)
          (rule_log_or t) (logical_Verdict tok lhs t old d)
    operator_type-Verdict tok lhs t nd_assign old d n = cc
    operator_type-Verdict tok lhs t nd_array_access old d n = cc
    operator_type-Verdict tok lhs t _ old d n = (refl, bools refl)

    checked_operands-Verdict :
        (tok : Option ℕ) (kind : BinaryKind) (old lhs : TypePtr) (t u : Shape) (same : Bool)
        → Denotes ctx.types lhs t
        → is_operator kind ≡ true
        → same_shape t u ≡ same
        → Verdict ctx tok
            (operation_shape kind t u)
            (checked_operands ctx tok kind old lhs same).0
            (checked_operands ctx tok kind old lhs same).1
    unfolding checked_operands
    checked_operands-Verdict tok kind old lhs t u true d n e =
        rw e (operator_type-Verdict tok lhs t kind old d n)
    checked_operands-Verdict tok kind old lhs t u false d n e =
        rw e (text "Type mismatch in binary expression", refl)

    -- For a binary operator whose operands have types `t` and `u`, no deeper than the fuel, the
    -- check always answers: where the rules give a type it reports nothing and the node gets that
    -- type, and where they give none it reports an error at the node's token.
    pub sema_analyze_binary-Answers :
        (kind : BinaryKind) (base : Base) (lhs rhs : Node) {lhs_ty rhs_ty : TypePtr} {t u : Shape}
        → is_operator kind ≡ true
        → type_of_node lhs ≡ ok lhs_ty
        → type_of_node rhs ≡ ok rhs_ty
        → Denotes ctx.types lhs_ty t
        → Denotes ctx.types rhs_ty u
        → depth t < type_fuel ctx.types.heap
        → Answers ctx
            (some base.tok.span_start)
            (operation_shape kind t u)
            (sema_analyze_binary ctx kind base lhs rhs)
    unfolding sema_analyze_binary
    sema_analyze_binary-Answers kind base lhs rhs {lhs_ty} {t} {u} n el er dl dr fits =
        rw (el, er, type_eq-same_shape ready (type_fuel ctx.types.heap) dl dr fits)
          (checked_operands-Verdict (some base.tok.span_start) kind base.node_type lhs_ty t u
            (same_shape t u) dl n refl)
