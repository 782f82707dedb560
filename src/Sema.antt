-- ===== src/Sema.antt =====
-- include/sema.h, src/sema.c: scopes, symbols and the checks of types. A function that reports
-- through `s->ctx` takes the context and returns it.
pub mod Reports
pub mod Operators
pub mod Scopes
pub mod Returns
use cact.Prelude.{
  ℕ, ◌+◌, Bool, true, false, not, Option, none, some, List, [], ◌∷◌, if◌then◌else◌, length,
}
use cact.Ast.{
  BinaryKind, nd_add, nd_sub, nd_mul, nd_div, nd_mod, nd_eq, nd_ne, nd_lt, nd_le, nd_gt, nd_ge,
  nd_log_and, nd_log_or, nd_assign, nd_array_access, SemaSymbol, Base, Node, test_null,
  type_of_node, var_of_node,
}
use cact.Context.{map_ops_symbol, text, Context, ctx_error, report_if}
use cact.Outcome.{Outcome, ok, ◌>>=◌}
use cact.Platform.{Platform}
use cact.Types.{TypePtr, TypeObject, TypeStore, ptr_eq, type_eq, type_is_arithmetic}

-- Room for every chain of types in the arena: see `type_eq` of Types.
abbrev pub type_fuel : List (Option TypeObject) → ℕ
type_fuel heap = length heap + 2

abbrev pub types_match : TypeStore → TypePtr → TypePtr → Outcome Bool
types_match s = type_eq (type_fuel s.heap) s.heap

-- The `switch` on the kind of the node, for operands of the type `lhs`.
pub data OperatorClass : Type 0 where
  arithmetic modulo comparison logical other : OperatorClass

abbrev pub class_of : BinaryKind → OperatorClass
class_of nd_add = arithmetic
class_of nd_sub = arithmetic
class_of nd_mul = arithmetic
class_of nd_div = arithmetic
class_of nd_mod = modulo
class_of nd_eq = comparison
class_of nd_ne = comparison
class_of nd_lt = comparison
class_of nd_le = comparison
class_of nd_gt = comparison
class_of nd_ge = comparison
class_of nd_log_and = logical
class_of nd_log_or = logical
class_of nd_assign = other
class_of nd_array_access = other

module _ ⦃env : Platform⦄ where
  abbrev pub Scope : Type 0
  Scope = env.Map SemaSymbol

  -- The scopes from `curr_scope` through the parents; the empty list is NULL.
  pub record Sema : Type 0 where
    pub scopes : List Scope
    pub curr_func_ret : TypePtr

  unfoldable pub sema_init : Sema
  sema_init = record { scopes = []; curr_func_ret = none }

  unfoldable pub sema_scope_enter : Sema → Sema
  sema_scope_enter s = record s { scopes = env.map_init SemaSymbol map_ops_symbol ∷ s.scopes }

  unfoldable pub leave_scopes : List Scope → List Scope
  leave_scopes [] = []
  leave_scopes (sc ∷ parents) = parents

  unfoldable pub sema_scope_leave : Sema → Sema
  sema_scope_leave s = record s { scopes = leave_scopes s.scopes }

  abbrev pub is_outermost : List Scope → Bool
  is_outermost [] = true
  is_outermost (_ ∷ _) = false

  -- `sema_define_var` in the innermost scope `sc`, where the name has the symbol `old` already or
  -- has none.
  abbrev pub define_in :
      Context
      → Sema
      → Scope
      → List Scope
      → ℕ
      → TypePtr
      → Bool
      → Option SemaSymbol
      → Option SemaSymbol × Context × Sema
  define_in ctx s sc parents name ty is_const (some old) =
      (none, ctx_error ctx none (text "Redefinition of symbol in the same scope"), s)
  define_in ctx s sc parents name ty is_const none =
      let symbol : SemaSymbol = record {
        symbol_name = name;
        ty = ty;
        is_const = is_const;
        is_global = is_outermost parents;
        stack_offset = 0;
      } in
      (some symbol, ctx, record s { scopes = env.map_put SemaSymbol sc name symbol ∷ parents })

  unfoldable pub define_scopes :
      Context → Sema → List Scope → ℕ → TypePtr → Bool → Option SemaSymbol × Context × Sema
  define_scopes ctx s [] name ty is_const = (none, ctx, s)
  define_scopes ctx s (sc ∷ parents) name ty is_const =
      define_in ctx s sc parents name ty is_const (env.map_get SemaSymbol sc name)

  unfoldable pub sema_define_var :
      Context → Sema → ℕ → TypePtr → Bool → Option SemaSymbol × Context × Sema
  sema_define_var ctx s name ty is_const = define_scopes ctx s s.scopes name ty is_const

  unfoldable pub lookup_scopes : List Scope → ℕ → Option SemaSymbol
  lookup_scopes [] name = none
  lookup_scopes (sc ∷ parents) name = elim (env.map_get SemaSymbol sc name) [
    | some symbol ↦ some symbol
    | none ↦ lookup_scopes parents name
  ]

  unfoldable pub sema_lookup : Sema → ℕ → Option SemaSymbol
  sema_lookup s name = lookup_scopes s.scopes name

  -- The type that the node gets, `old` being the one that it had, and the context.
  unfoldable pub operator_type :
      Context → Option ℕ → TypePtr → OperatorClass → TypePtr → TypePtr × Context
  operator_type ctx tok lhs arithmetic old = (
    lhs,
    report_if (not (type_is_arithmetic ctx.types lhs)) ctx tok
        "Arithmetic operator requires numeric operands",
  )
  operator_type ctx tok lhs modulo old = (
    ctx.types.ty_int,
    report_if (not (ptr_eq lhs ctx.types.ty_int)) ctx tok
        "Modulo operator requires integer operands",
  )
  operator_type ctx tok lhs comparison old = (ctx.types.ty_bool, ctx)
  operator_type ctx tok lhs logical old = (
    ctx.types.ty_bool,
    report_if (not (ptr_eq lhs ctx.types.ty_bool)) ctx tok
        "Logical operator requires boolean operands",
  )
  operator_type ctx tok lhs other old = (old, ctx)

  unfoldable pub checked_operands :
      Context → Option ℕ → BinaryKind → TypePtr → TypePtr → Bool → TypePtr × Context
  checked_operands ctx tok kind old lhs true = operator_type ctx tok lhs (class_of kind) old
  checked_operands ctx tok kind old lhs false =
      (ctx.types.ty_void, ctx_error ctx tok (text "Type mismatch in binary expression"))

  -- The node is given by its kind, its token, its type and the types of its operands; the result
  -- is its new type.
  unfoldable pub sema_analyze_binary :
      Context → BinaryKind → Base → Node → Node → Outcome (TypePtr × Context)
  sema_analyze_binary ctx kind base lhs rhs = do
    lhs_ty ← type_of_node lhs
    rhs_ty ← type_of_node rhs
    same ← types_match ctx.types lhs_ty rhs_ty
    ok (checked_operands ctx (some base.tok.span_start) kind base.node_type lhs_ty same)

  abbrev pub assigns_const : Option (Option SemaSymbol) → Bool
  assigns_const (some (some v)) = v.is_const
  assigns_const _ = false

  unfoldable pub sema_analyze_assign : Context → Base → Node → Node → Outcome (TypePtr × Context)
  sema_analyze_assign ctx base lhs rhs = do
    var ← var_of_node lhs
    let tok : Option ℕ = some base.tok.span_start
    let ctx₁ = report_if (assigns_const var) ctx tok "Cannot assign to const variable"
    lhs_ty ← type_of_node lhs
    rhs_ty ← type_of_node rhs
    same ← types_match ctx₁.types lhs_ty rhs_ty
    ok (lhs_ty, report_if (not same) ctx₁ tok "Type mismatch in assignment")

  -- `node->lhs ? node->lhs->ty : ty_void`.
  unfoldable pub returned_type : TypeStore → Node → Bool → Outcome TypePtr
  returned_type s lhs true = ok s.ty_void
  returned_type s lhs false = type_of_node lhs

  unfoldable pub check_return : Context → TypePtr → Option ℕ → TypePtr → Outcome Context
  check_return ctx ret tok actual =
      if ptr_eq ret ctx.types.ty_void
      then ok (
          report_if (not (ptr_eq actual ctx.types.ty_void)) ctx tok
            "Void function should not return a value")
      else if ptr_eq actual ctx.types.ty_void
      then ok (ctx_error ctx tok (text "Non-void function must return a value"))
      else do
        same ← types_match ctx.types ret actual
        ok (report_if (not same) ctx tok "Return type mismatch")

  unfoldable pub sema_analyze_return : Context → Sema → Base → Node → Outcome (TypePtr × Context)
  sema_analyze_return ctx s base lhs = do
    absent ← test_null lhs
    actual ← returned_type ctx.types lhs absent
    ctx' ← check_return ctx s.curr_func_ret (some base.tok.span_start) actual
    ok (ctx'.types.ty_void, ctx')
