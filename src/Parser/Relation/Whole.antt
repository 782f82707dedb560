-- ===== src/Parser/Relation/Whole.antt =====
-- Functions, the top level and the whole parse keep every stable relation that allows a change of
-- `curr_func_ret`.
use cact.Prelude.{ℕ, zero, suc, String, Bool, false, not, ◌&&◌, Option, none, some, Bytes, codes}
use cact.Ast.{Node, null, Nodes, no_nodes, test_null}
use cact.Outcome.{fault, ok}
use cact.Parser.Monad.{Parser, ◌>>◌, pure, modify, lift, when}
use cact.Parser.Relation.{
  Stable, After, Keeps, Keeps->>=, Keeps-lift, Keeps-if, Keeps-when, Keeps-within,
}
use cact.Parser.Relation.Decl.{parse_array_dims-Keeps, parse_var_decl_list-Keeps}
use cact.Parser.Relation.Steps.{
  advance_token-Keeps, parser_error-Keeps, consume-Keeps, match_kind-Keeps, on_match-Keeps,
  synchronize-Keeps, define_var-Keeps, set_types-Keeps, make_array-Keeps,
}
use cact.Parser.Relation.Stmt.{parse_items-Keeps}
use cact.Parser.Stmt.{parse_items}
use cact.Parser.Tokens.{
  advance_token, parser_error, consume, match_kind, on_match, synchronize, token_to_type,
  define_var, make_array,
}
use cact.Parser.TopLevel.{
  param_array, add_param, parse_param, parse_params, set_func_ret, make_func, parse_func_scope,
  parse_func, parse_named, parse_top_level, install_builtin, install_builtins, recover,
  parse_globals, parse_unit, parser_parse,
}
use cact.Platform.{Platform}
use cact.Token.{
  eof, ident, lit_int, kw_const, l_paren, r_paren, l_brace, r_brace, l_bracket, r_bracket, comma,
  same_kind,
}
use cact.Token.Value.{value_name, value_int}
use cact.Types.{TypePtr, is_null, type_func_new, push_param}

module _ ⦃env : Platform⦄ {R : Parser → Parser → Type 0} (st : Stable R)
    (returns : (p : Parser) (ty : TypePtr)
      → R p (record p { sema = record (p.sema) { curr_func_ret = ty } })) where
  set_func_ret-Keeps : (ty : TypePtr) → Keeps R (set_func_ret ty)
  set_func_ret-Keeps ty p = returns p ty

  read_length :
      (p : Parser) (v : Option ℕ) → After (R p) (elim v [ none ↦ fault | some i ↦ ok (i, p) ])
  read_length p none = tt
  read_length p (some i) = st.same p

  param_array-Keeps : (f : ℕ) (ty : TypePtr) → Keeps R (param_array f ty)
  unfolding param_array
  param_array-Keeps f ty =
      Keeps->>= st _ _
        (on_match-Keeps st r_bracket (make_array ty 0) _ (make_array-Keeps st ty 0) (
          on_match-Keeps st lit_int _ _
            (Keeps->>= st (λ p. elim (value_int p.prev.value) [ none ↦ fault | some i ↦ ok (i, p) ])
              _ (λ p. read_length p (value_int p.prev.value))
              (λ len.
                Keeps->>= st (consume r_bracket "Expect ']'") _ (consume-Keeps st _ _)
                  (λ _. make_array-Keeps st ty len)))
            (Keeps->>= st (parser_error "Expect array size") _ (parser_error-Keeps st _)
              (λ _. st.same))))
        (λ arr. parse_array_dims-Keeps st f arr)

  add_param-Keeps : (func_ty ty : TypePtr) → Keeps R (add_param func_ty ty)
  unfolding add_param
  add_param-Keeps func_ty ty p =
      Keeps->>= st (lift (push_param p.ctx.types func_ty ty)) _ (Keeps-lift st _)
        (λ s. set_types-Keeps st s) p

  parse_param-Keeps : (f : ℕ) (func_ty : TypePtr) → Keeps R (parse_param f func_ty)
  unfolding parse_param
  parse_param-Keeps f func_ty p =
      let arg_ty = token_to_type p.ctx.types p.curr.kind in
      Keeps->>= st (when (is_null arg_ty) (parser_error "Expect param type")) _
        (Keeps-when st (is_null arg_ty) _ (parser_error-Keeps st _))
        (λ _. Keeps->>= st advance_token _ (advance_token-Keeps st) (λ _.
          Keeps->>= st (consume ident "Expect param name") _ (consume-Keeps st _ _) (λ _ q.
            Keeps->>= st (on_match l_bracket (param_array f arg_ty) (pure arg_ty)) _
              (on_match-Keeps st l_bracket (param_array f arg_ty) (pure arg_ty)
                (param_array-Keeps f arg_ty) st.same)
              (λ ty.
                Keeps->>= st (define_var (value_name q.prev.value) ty false) _
                  (define_var-Keeps st _ _ _) (λ symbol. add_param-Keeps func_ty ty))
              q)))
        p

  parse_params-Keeps : (f : ℕ) (func_ty : TypePtr) → Keeps R (parse_params f func_ty)
  unfolding parse_params
  parse_params-Keeps zero func_ty p = tt
  parse_params-Keeps (suc f) func_ty p =
      Keeps->>= st (parse_param f func_ty) _ (parse_param-Keeps f func_ty)
        (λ _. on_match-Keeps st comma _ _ (parse_params-Keeps f func_ty) st.same) p

  make_func-Keeps : (ret : TypePtr) → Keeps R (make_func ret)
  unfolding make_func
  make_func-Keeps ret p = st.allocates p (type_func_new p.ctx.types ret).1

  parse_func_scope-Keeps : (f : ℕ) (func_ty : TypePtr) → Keeps R (parse_func_scope f func_ty)
  unfolding parse_func_scope
  parse_func_scope-Keeps f func_ty p =
      Keeps->>= st (when (not (same_kind p.curr.kind r_paren)) (parse_params f func_ty)) _
        (Keeps-when st _ _ (parse_params-Keeps f func_ty))
        (λ _. Keeps->>= st (consume r_paren "Expect ')'") _ (consume-Keeps st _ _) (λ _ q.
          Keeps->>= st (consume l_brace "Expect '{'") _ (consume-Keeps st _ _)
            (λ _.
              Keeps->>= st (parse_items f "Unexpected token in function body" no_nodes) _
                (parse_items-Keeps st f _ no_nodes)
                (λ stmts.
                  Keeps->>= st (consume r_brace "Expect '}'") _ (consume-Keeps st _ _)
                    (λ _. st.same)))
            q))
        p

  parse_func-Keeps : (f : ℕ) (ret_ty : TypePtr) (x : ℕ) → Keeps R (parse_func f ret_ty x)
  unfolding parse_func
  parse_func-Keeps f ret_ty x = Keeps->>= st (consume l_paren "") _ (consume-Keeps st _ _) (λ _.
      Keeps->>= st (make_func ret_ty) _ (make_func-Keeps ret_ty) (λ func_ty.
        Keeps->>= st (define_var x func_ty false) _ (define_var-Keeps st _ _ _) (λ func_sym.
          Keeps->>= st (set_func_ret ret_ty) _ (set_func_ret-Keeps ret_ty) (λ _.
            Keeps-within st (parse_func_scope f func_ty) (λ body. do set_func_ret none; pure body)
              (parse_func_scope-Keeps f func_ty)
              (λ body.
                Keeps->>= st (set_func_ret none) (λ _. pure body) (set_func_ret-Keeps none)
                  (λ _. st.same))))))

  refuse : (msg : String) → Keeps {A = Node} R (do parser_error msg; pure null)
  refuse msg = Keeps->>= st (parser_error msg) _ (parser_error-Keeps st msg) (λ _. st.same)

  parse_named-Keeps : (f : ℕ) (ty : TypePtr) (is_const : Bool) → Keeps R (parse_named f ty is_const)
  unfolding parse_named
  parse_named-Keeps f ty is_const p =
      Keeps-if st (not (same_kind p.curr.kind ident)) _ _ (refuse "Expect name")
        (Keeps->>= st (consume ident "Expect name") _ (consume-Keeps st _ _) (λ _ q.
          Keeps-if st (same_kind q.curr.kind l_paren) _ _
            (parse_func-Keeps f ty (value_name q.prev.value))
            (parse_var_decl_list-Keeps st f ty (value_name q.prev.value) is_const) q))
        p

  pub parse_top_level-Keeps : (f : ℕ) → Keeps R (parse_top_level f)
  unfolding parse_top_level
  parse_top_level-Keeps f =
      Keeps->>= st (match_kind kw_const) _ (match_kind-Keeps st kw_const) (λ is_const q.
        let ty = token_to_type q.ctx.types q.curr.kind in
        Keeps-if st (is_null ty && not is_const) (pure null) _ st.same
          (Keeps-if st (is_null ty) _ _
            (Keeps->>= st (parser_error "Expect type") _ (parser_error-Keeps st _)
              (λ _. Keeps->>= st advance_token _ (advance_token-Keeps st) (λ _. st.same)))
            (Keeps->>= st advance_token _ (advance_token-Keeps st)
              (λ _. parse_named-Keeps f ty is_const)))
          q)

  install_builtin-Keeps :
      (x : Bytes) (ret arg1_ty : TypePtr) → Keeps R (install_builtin x ret arg1_ty)
  unfolding install_builtin
  install_builtin-Keeps x ret arg1_ty =
      Keeps->>= st (make_func ret) _ (make_func-Keeps ret) (λ func_ty.
        Keeps->>= st (when (not (is_null arg1_ty)) (add_param func_ty arg1_ty)) _
          (Keeps-when st _ _ (add_param-Keeps func_ty arg1_ty))
          (λ _ p.
            let interned = env.intern p.ctx.itn x in
            Keeps->>= st (modify λ q. record q { ctx = record (q.ctx) { itn = interned.0 } }) _
              (λ q. st.interns q interned.0)
              (λ _.
                Keeps->>= st (define_var interned.1 func_ty false) (λ _. pure tt)
                  (define_var-Keeps st _ _ _) (λ symbol. st.same))
              p))

  pub install_builtins-Keeps : Keeps R install_builtins
  unfolding install_builtins
  install_builtins-Keeps p =
      let s = p.ctx.types in
      Keeps->>= st (install_builtin (codes "print_int") s.ty_void s.ty_int) _
        (install_builtin-Keeps (codes "print_int") s.ty_void s.ty_int)
        (λ _.
          Keeps->>= st (install_builtin (codes "print_float") s.ty_void s.ty_float) _
            (install_builtin-Keeps (codes "print_float") s.ty_void s.ty_float)
            (λ _.
              Keeps->>= st (install_builtin (codes "print_double") s.ty_void s.ty_double) _
                (install_builtin-Keeps (codes "print_double") s.ty_void s.ty_double)
                (λ _.
                  Keeps->>= st (install_builtin (codes "print_bool") s.ty_void s.ty_bool) _
                    (install_builtin-Keeps (codes "print_bool") s.ty_void s.ty_bool)
                    (λ _.
                      Keeps->>= st (install_builtin (codes "get_int") s.ty_int none) _
                        (install_builtin-Keeps (codes "get_int") s.ty_int none)
                        (λ _.
                          Keeps->>= st (install_builtin (codes "get_float") s.ty_float none) _
                            (install_builtin-Keeps (codes "get_float") s.ty_float none)
                            (λ _. install_builtin-Keeps (codes "get_double") s.ty_double none))))))
        p

  pub recover-Keeps : Keeps R recover
  unfolding recover
  recover-Keeps p =
      Keeps->>= st
        (when (not p.ctx.had_error && not p.panic_mode)
          (parser_error "Unexpected token at top level"))
        _ (Keeps-when st _ _ (parser_error-Keeps st _))
        (λ _ q.
          Keeps->>= st (when q.panic_mode synchronize) _
            (Keeps-when st q.panic_mode synchronize (synchronize-Keeps st))
            (λ _ r. Keeps-when st _ _ (advance_token-Keeps st) r) q)
        p

  parse_globals-Keeps : (f : ℕ) (globals : Nodes) → Keeps R (parse_globals f globals)
  unfolding parse_globals
  parse_globals-Keeps zero globals p = tt
  parse_globals-Keeps (suc f) globals p =
      on_match-Keeps st eof (pure globals) _ st.same
        (Keeps->>= st (parse_top_level f) _ (parse_top_level-Keeps f) (λ n.
          Keeps->>= st (lift (test_null n)) _ (Keeps-lift st (test_null n)) (λ absent.
            Keeps->>= st (when absent recover) _ (Keeps-when st absent recover recover-Keeps)
              (λ _. parse_globals-Keeps f _))))
        p

  parse_unit-Keeps : (f : ℕ) → Keeps R (parse_unit f)
  unfolding parse_unit
  parse_unit-Keeps f =
      Keeps->>= st install_builtins _ install_builtins-Keeps (λ _. parse_globals-Keeps f no_nodes)

  pub parser_parse-Keeps : (f : ℕ) → Keeps R (parser_parse f)
  unfolding parser_parse
  parser_parse-Keeps f = Keeps-within st (parse_unit f) pure (parse_unit-Keeps f) (λ _. st.same)
