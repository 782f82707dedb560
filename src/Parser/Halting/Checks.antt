-- ===== src/Parser/Halting/Checks.antt =====
-- The checks of sema.c, definitions, allocations and the recovery come to an end.
use cact.Prelude.{
  ℕ, String, ◌≡◌, refl, ◌∙◌, inl, inr, Bool, true, false, Option, none, some, List, [], ◌∷◌, arith,
  Bool-cases,
}
use cact.Ast.{
  BinaryKind, SemaSymbol, Base, Node, null, indeterminate, test_null, base_node, type_of_node,
  var_of_node,
}
use cact.Context.{text, Context, report_if}
use cact.Context.Errors.{Reported, silent, spoken}
use cact.Outcome.{Outcome, fault, out_of_fuel, ok, Ensures, Halts, Halts-bind}
use cact.Parser.Halting.{left, Done, done, faulted, At, Ends}
use cact.Parser.Monad.{Parser, continue, lift}
use cact.Parser.Tokens.{set_types, define_var, checked, make_array}
use cact.Parser.TopLevel.{add_param, make_func}
use cact.Platform.{Platform}
use cact.Sema.{
  type_fuel, types_match, Scope, Sema, define_in, define_scopes, sema_define_var,
  sema_analyze_binary, assigns_const, sema_analyze_assign, returned_type, check_return,
  sema_analyze_return,
}
use cact.Sema.Reports.{
  sema_analyze_binary-Reported, sema_analyze_assign-Reported, sema_analyze_return-Reported,
}
use cact.Sema.Returns.{ctx_error-types}
use cact.Types.{TypePtr, TypeStore, ptr_eq, type_array_of, push_param}
use cact.Types.Ranked.{type_eq-Halts}
use cact.Types.Ranked.Kept.{
  PlainIn, WellFormed, Follows, Follows-trans, type_func_new-Follows, MadeArray,
  type_array_of-MadeArray,
}
use cact.Types.Ranked.Push.{Pushed, push_param-Pushed}

module _ ⦃env : Platform⦄ where
  Reported-types : {ctx ctx' : Context} → Reported ctx ctx' → ctx'.types ≡ ctx.types
  Reported-types silent = refl
  Reported-types (spoken {ctx'} tok msg r) = ctx_error-types ctx' tok msg ∙ Reported-types r

  pub report_if-types :
      (bad : Bool) (ctx : Context) (tok : Option ℕ) (msg : String)
      → (report_if bad ctx tok msg).types ≡ ctx.types
  report_if-types true ctx tok msg = ctx_error-types ctx tok (text msg)
  report_if-types false ctx tok msg = refl

  base_node-Halts : (x : Node) → Halts (base_node x)
  base_node-Halts null = tt
  base_node-Halts indeterminate = tt
  base_node-Halts _ = tt

  pub type_of_node-Halts : (x : Node) → Halts (type_of_node x)
  type_of_node-Halts x = Halts-bind (base_node x) _ (base_node-Halts x) λ b _. tt

  var_of_node-Halts : (x : Node) → Halts (var_of_node x)
  var_of_node-Halts null = tt
  var_of_node-Halts indeterminate = tt
  var_of_node-Halts _ = tt

  pub test_null-Halts : (x : Node) → Halts (test_null x)
  test_null-Halts null = tt
  test_null-Halts indeterminate = tt
  test_null-Halts _ = tt

  -- Types are compared in well-formed stores only.
  pub types_match-Halts : (s : TypeStore) (a b : TypePtr) → WellFormed s → Halts (types_match s a b)
  types_match-Halts s a b w = type_eq-Halts s.heap w.ranked (type_fuel s.heap) a b (omega arith)

  sema_analyze_binary-Halts :
      (ctx : Context) (kind : BinaryKind) (base : Base) (lhs rhs : Node)
      → WellFormed ctx.types
      → Halts (sema_analyze_binary ctx kind base lhs rhs)
  unfolding sema_analyze_binary
  sema_analyze_binary-Halts ctx kind base lhs rhs w =
      Halts-bind (type_of_node lhs) _ (type_of_node-Halts lhs) λ a _.
        Halts-bind (type_of_node rhs) _ (type_of_node-Halts rhs) λ b _.
          Halts-bind (types_match ctx.types a b) _ (types_match-Halts ctx.types a b w) λ same _. tt

  sema_analyze_assign-Halts :
      (ctx : Context) (base : Base) (lhs rhs : Node)
      → WellFormed ctx.types
      → Halts (sema_analyze_assign ctx base lhs rhs)
  unfolding sema_analyze_assign
  sema_analyze_assign-Halts ctx base lhs rhs w =
      Halts-bind (var_of_node lhs) _ (var_of_node-Halts lhs) λ var _.
        Halts-bind (type_of_node lhs) _ (type_of_node-Halts lhs) λ a _.
          Halts-bind (type_of_node rhs) _ (type_of_node-Halts rhs) λ b _.
            let ctx₁ =
              report_if (assigns_const var) ctx (some base.tok.span_start)
                "Cannot assign to const variable" in
            Halts-bind (types_match ctx₁.types a b) _
              (types_match-Halts ctx₁.types a b (
                rw
                  (report_if-types (assigns_const var) ctx (some base.tok.span_start)
                    "Cannot assign to const variable")
                  w))
              λ same _. tt

  check_return-Halts :
      (ctx : Context) (ret : TypePtr) (tok : Option ℕ) (actual : TypePtr)
      → WellFormed ctx.types
      → Halts (check_return ctx ret tok actual)
  unfolding check_return
  check_return-Halts ctx ret tok actual w = elim (Bool-cases (ptr_eq ret ctx.types.ty_void)) [
    | inl e ↦ rw e tt
    | inr e ↦ rw e (elim (Bool-cases (ptr_eq actual ctx.types.ty_void)) [
      | inl e' ↦ rw e' tt
      | inr e' ↦ rw e' (
          Halts-bind (types_match ctx.types ret actual) _ (types_match-Halts ctx.types ret actual w)
            λ same _. tt)
    ])
  ]

  returned_type-Halts : (s : TypeStore) (x : Node) (b : Bool) → Halts (returned_type s x b)
  unfolding returned_type
  returned_type-Halts s x true = tt
  returned_type-Halts s x false = type_of_node-Halts x

  sema_analyze_return-Halts :
      (ctx : Context) (sema : Sema) (base : Base) (lhs : Node)
      → WellFormed ctx.types
      → Halts (sema_analyze_return ctx sema base lhs)
  unfolding sema_analyze_return
  sema_analyze_return-Halts ctx sema base lhs w =
      Halts-bind (test_null lhs) _ (test_null-Halts lhs) λ absent _.
        Halts-bind (returned_type ctx.types lhs absent) _ (returned_type-Halts ctx.types lhs absent)
          λ actual _.
            Halts-bind (check_return ctx sema.curr_func_ret (some base.tok.span_start) actual) _
              (check_return-Halts ctx sema.curr_func_ret (some base.tok.span_start) actual w)
              λ ctx' _. tt

  module _ (n : ℕ) (s : TypeStore) where
    pub At-types :
        (c : ℕ) (p : Parser) (ctx : Context)
        → ctx.types ≡ p.ctx.types
        → At n s c p
        → At n s c (record p { ctx = ctx })
    At-types c p ctx e w = record { room = w.room; follows = rw e w.follows; running = w.running }

    check_made :
        (c : ℕ) (p : Parser) (o : Outcome (TypePtr × Context))
        → At n s c p
        → Halts o
        → Ensures (λ r. Reported p.ctx r.1) o
        → Ends n s c (elim o as (λ _. Outcome (TypePtr × Parser)) [
          | ok (ty, ctx) ↦ ok (ty, record p { ctx = ctx })
          | fault ↦ fault
          | out_of_fuel ↦ out_of_fuel
        ])
    check_made c p (ok (ty, ctx)) w h r = done (At-types c p ctx (Reported-types r) w)
    check_made c p fault w h r = faulted
    check_made c p out_of_fuel w h r = absurd h

    pub binary-Ends :
        (kind : BinaryKind) (base : Base) (lhs rhs : Node) (c : ℕ) (p : Parser)
        → At n s c p
        → Ends n s c (checked (λ ctx. sema_analyze_binary ctx kind base lhs rhs) p)
    binary-Ends kind base lhs rhs c p w =
        check_made c p (sema_analyze_binary p.ctx kind base lhs rhs) w
          (sema_analyze_binary-Halts p.ctx kind base lhs rhs w.follows.well_formed)
          (sema_analyze_binary-Reported p.ctx kind base lhs rhs)

    pub assign-Ends :
        (base : Base) (lhs rhs : Node) (c : ℕ) (p : Parser)
        → At n s c p
        → Ends n s c (checked (λ ctx. sema_analyze_assign ctx base lhs rhs) p)
    assign-Ends base lhs rhs c p w =
        check_made c p (sema_analyze_assign p.ctx base lhs rhs) w
          (sema_analyze_assign-Halts p.ctx base lhs rhs w.follows.well_formed)
          (sema_analyze_assign-Reported p.ctx base lhs rhs)

    pub return-Ends :
        (sema : Sema) (base : Base) (lhs : Node) (c : ℕ) (p : Parser)
        → At n s c p
        → Ends n s c (checked (λ ctx. sema_analyze_return ctx sema base lhs) p)
    return-Ends sema base lhs c p w =
        check_made c p (sema_analyze_return p.ctx sema base lhs) w
          (sema_analyze_return-Halts p.ctx sema base lhs w.follows.well_formed)
          (sema_analyze_return-Reported p.ctx sema base lhs)

    defined_types :
        (ctx : Context) (sema : Sema) (scopes : List Scope) (x : ℕ) (ty : TypePtr) (b : Bool)
        → (define_scopes ctx sema scopes x ty b).1.types ≡ ctx.types
    unfolding define_scopes
    defined_types ctx sema [] x ty b = refl
    defined_types ctx sema (sc ∷ parents) x ty b = go (env.map_get SemaSymbol sc x)
      where
        go : (o : Option SemaSymbol) → (define_in ctx sema sc parents x ty b o).1.types ≡ ctx.types
        go none = refl
        go (some old) = ctx_error-types ctx none (text "Redefinition of symbol in the same scope")

    pub define_var-Ends :
        (x : ℕ) (ty : TypePtr) (b : Bool) (c : ℕ) (p : Parser)
        → At n s c p
        → Ends n s c (define_var x ty b p)
    unfolding define_var sema_define_var
    define_var-Ends x ty b c p w = done (record {
      room = w.room;
      follows = rw (defined_types p.ctx p.sema p.sema.scopes x ty b) w.follows;
      running = w.running;
    })

    -- A later state, from one that followed.
    At-Follows :
        (c : ℕ) (p q : Parser)
        → At n s c p
        → left q ≡ left p
        → q.lex.cut_off ≡ p.lex.cut_off
        → Follows p.ctx.types q.ctx.types
        → At n s c q
    At-Follows c p q w e on h = record {
      room = rw e w.room;
      follows = Follows-trans s p.ctx.types q.ctx.types w.follows h;
      running = on ∙ w.running;
    }

    pub make_array-Ends :
        (base : TypePtr) (len c : ℕ) (p : Parser)
        → At n s c p
        → PlainIn p.ctx.types base
        → Done (λ ty q. At n s c q × PlainIn q.ctx.types ty) (make_array base len p)
    unfolding make_array
    make_array-Ends base len c p w h =
        go (type_array_of p.ctx.types base len)
          (type_array_of-MadeArray p.ctx.types base len w.follows.well_formed h)
      where
        go :
            (o : Outcome (TypePtr × TypeStore))
            → MadeArray p.ctx.types o
            → Done
                (λ ty q. At n s c q × PlainIn q.ctx.types ty)
                (elim o as (λ _. Outcome (TypePtr × Parser)) [
                  | ok (ty, s') ↦ ok (ty, record p { ctx = record (p.ctx) { types = s' } })
                  | fault ↦ fault
                  | out_of_fuel ↦ out_of_fuel
                ])
        go (ok (ty, s')) (f, k) = done (At-Follows c p _ w refl refl f, k)
        go fault k = faulted
        go out_of_fuel k = absurd k

    pub add_param-Ends :
        (func_ty ty : TypePtr) (c : ℕ) (p : Parser)
        → At n s c p
        → PlainIn p.ctx.types ty
        → Ends n s c (add_param func_ty ty p)
    unfolding add_param
    add_param-Ends func_ty ty c p w h =
        go (push_param p.ctx.types func_ty ty)
          (push_param-Pushed p.ctx.types func_ty ty w.follows.well_formed h)
      where
        go :
            (o : Outcome TypeStore)
            → Pushed p.ctx.types o
            → Ends n s c (continue (lift o p) (λ s'. set_types s'))
        go (ok s') f = done (At-Follows c p _ w refl refl f)
        go fault k = faulted
        go out_of_fuel k = absurd k

    pub make_func-Ends :
        (ret : TypePtr) (c : ℕ) (p : Parser)
        → At n s c p
        → PlainIn p.ctx.types ret
        → Ends n s c (make_func ret p)
    unfolding make_func
    make_func-Ends ret c p w h = done (
        At-Follows c p _ w refl refl
          (type_func_new-Follows p.ctx.types ret w.follows.well_formed h))
