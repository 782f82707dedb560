-- ===== src/Parser/Relation/Decl.antt =====
-- Declarations keep every stable relation.
use cact.Prelude.{ℕ, zero, suc, String, Bool, not, Option, none, some, if◌then◌else◌}
use cact.Ast.{Base, Node, null, Nodes, no_nodes, push_node, unwritten, test_null}
use cact.Context.{report_if}
use cact.Context.Errors.{silent, Reported-if}
use cact.Outcome.{fault, ok}
use cact.Parser.Decl.{
  prev_int, parse_array_dims, parse_initializer_list, parse_inits, init_mismatch, checked_init,
  parse_declarator, parse_declarators, parse_var_decl_list, parse_decl,
}
use cact.Parser.Expr.{parse_assign, parse_expr}
use cact.Parser.Monad.{Parser, ◌>>=◌, ◌>>◌, pure, lift, when}
use cact.Parser.Relation.{Stable, After, Keeps, Keeps->>=, Keeps-lift, Keeps-if, Keeps-when}
use cact.Parser.Relation.Expr.{parse_expr-Keeps, parse_assign-Keeps}
use cact.Parser.Relation.Steps.{
  advance_token-Keeps, parser_error-Keeps, consume-Keeps, match_kind-Keeps, on_match-Keeps,
  define_var-Keeps, make_array-Keeps, modify-Keeps,
}
use cact.Parser.Tokens.{
  advance_token, parser_error, check_kind, consume, match_kind, on_match, token_to_type, define_var,
  make_array,
}
use cact.Platform.{Platform}
use cact.Token.{ident, kw_const, l_brace, r_brace, r_bracket, assign, semicolon, same_kind}
use cact.Token.Value.{value_int}
use cact.Types.{TypePtr, is_null}

module _ ⦃env : Platform⦄ {R : Parser → Parser → Type 0} (st : Stable R) where
  read_int :
      (p : Parser) (v : Option ℕ) → After (R p) (elim v [ none ↦ fault | some i ↦ ok (i, p) ])
  read_int p none = tt
  read_int p (some i) = st.same p

  pub prev_int-Keeps : Keeps R prev_int
  prev_int-Keeps p = read_int p (value_int p.prev.value)

  pub parse_array_dims-Keeps : (f : ℕ) (base : TypePtr) → Keeps R (parse_array_dims f base)
  unfolding parse_array_dims
  parse_array_dims-Keeps zero base p = tt
  parse_array_dims-Keeps (suc f) base p =
      on_match-Keeps st _ _ _
        (on_match-Keeps st _ _ _
          (Keeps->>= st prev_int _ prev_int-Keeps (λ len.
            Keeps->>= st (consume r_bracket "Expect ']'") _ (consume-Keeps st _ _) (λ _.
              Keeps->>= st (make_array base len) _ (make_array-Keeps st base len)
                (λ ty. parse_array_dims-Keeps f ty))))
          (Keeps->>= st (parser_error "Array size must be constant int") _ (parser_error-Keeps st _)
            (λ _ q.
              Keeps->>= st (when (same_kind q.curr.kind r_bracket) advance_token) _
                (Keeps-when st _ _ (advance_token-Keeps st)) (λ _. parse_array_dims-Keeps f base)
                q)))
        st.same p

  mutual
    unfolding parse_initializer_list

    initializer : (f : ℕ) → Keeps R (parse_initializer_list f)
    initializer zero p = tt
    initializer (suc f) p =
        Keeps->>= st (consume l_brace "Expect '{'") _ (consume-Keeps st _ _)
          (λ _ q.
            Keeps->>= st
              (if same_kind q.curr.kind r_brace then pure no_nodes else parse_inits f no_nodes) _
              (Keeps-if st (same_kind q.curr.kind r_brace) (pure no_nodes) (parse_inits f no_nodes)
                st.same (inits f no_nodes))
              (λ ns.
                Keeps->>= st (consume r_brace "Expect '}'") _ (consume-Keeps st _ _) (λ _. st.same))
              q)
          p

    inits : (f : ℕ) (acc : Nodes) → Keeps R (parse_inits f acc)
    inits zero acc p = tt
    inits (suc f) acc p =
        Keeps->>= st
          (if same_kind p.curr.kind l_brace then parse_initializer_list f else parse_assign f) _
          (Keeps-if st (same_kind p.curr.kind l_brace) (parse_initializer_list f) (parse_assign f)
            (initializer f) (parse_assign-Keeps st f))
          (λ v. on_match-Keeps st _ _ _ (inits f (push_node acc v)) st.same) p

  checked_init-Keeps : (f : ℕ) (ty : TypePtr) (n : Base) → Keeps R (checked_init f ty n)
  unfolding checked_init
  checked_init-Keeps f ty n = Keeps->>= st (parse_expr f) _ (parse_expr-Keeps st f) (λ init.
      Keeps->>= st (lift (test_null init)) _ (Keeps-lift st _) (λ absent q.
        Keeps->>= st (lift (init_mismatch q.ctx.types ty init absent)) _ (Keeps-lift st _)
          (λ bad.
            modify-Keeps st (λ p. report_if bad p.ctx (some n.tok.span_start) "Init type mismatch")
              (λ p. Reported-if bad _ _ silent))
          q))

  initialised :
      (f : ℕ) (ty : TypePtr) (is_const : Bool) (n : Base)
      → Keeps R (
          on_match assign
            (do
              braces ← check_kind l_brace
              if braces then parse_initializer_list f else checked_init f ty n)
            (do when is_const (parser_error "Const variable must be initialized"); pure unwritten))
  initialised f ty is_const n =
      on_match-Keeps st _ _ _
        (λ q.
          Keeps-if st (same_kind q.curr.kind l_brace) (parse_initializer_list f)
            (checked_init f ty n) (initializer f) (checked_init-Keeps f ty n) q)
        (Keeps->>= st (when is_const (parser_error "Const variable must be initialized")) _
          (Keeps-when st is_const _ (parser_error-Keeps st _)) (λ _. st.same))

  declarator :
      (f : ℕ) (base : TypePtr) (is_const : Bool) (x : ℕ)
      → Keeps R (parse_declarator f base is_const x)
  unfolding parse_declarator
  declarator f base is_const x =
      Keeps->>= st (parse_array_dims f base) _ (parse_array_dims-Keeps f base) (λ ty.
        Keeps->>= st (define_var x ty is_const) _ (define_var-Keeps st x ty is_const) (λ symbol q.
          Keeps->>= st _ _ (initialised f ty is_const (record { tok = q.prev; node_type = none }))
            (λ init. st.same) q))

  declarators :
      (f : ℕ) (base : TypePtr) (is_const : Bool) (x : ℕ) (acc : Nodes)
      → Keeps R (parse_declarators f base is_const x acc)
  unfolding parse_declarators
  declarators zero base is_const x acc p = tt
  declarators (suc f) base is_const x acc p =
      Keeps->>= st (parse_declarator f base is_const x) _ (declarator f base is_const x)
        (λ n.
          on_match-Keeps st _ _ _
            (λ q.
              Keeps-if st (same_kind q.curr.kind ident) _ _
                (Keeps->>= st advance_token _ (advance_token-Keeps st)
                  (λ _ r. declarators f base is_const _ (push_node acc n) r))
                (Keeps->>= st (parser_error "Expect variable name") _ (parser_error-Keeps st _)
                  (λ _. st.same))
                q)
            st.same)
        p

  pub parse_var_decl_list-Keeps :
      (f : ℕ) (base : TypePtr) (x : ℕ) (is_const : Bool)
      → Keeps R (parse_var_decl_list f base x is_const)
  unfolding parse_var_decl_list
  parse_var_decl_list-Keeps f base x is_const p =
      Keeps->>= st (parse_declarators f base is_const x no_nodes) _
        (declarators f base is_const x no_nodes)
        (λ decls.
          Keeps->>= st (consume semicolon "Expect ';'") _ (consume-Keeps st _ _) (λ _. st.same))
        p

  refuse : (msg : String) → Keeps {A = Node} R (do parser_error msg; pure null)
  refuse msg = Keeps->>= st (parser_error msg) _ (parser_error-Keeps st msg) (λ _. st.same)

  pub parse_decl-Keeps : (f : ℕ) → Keeps R (parse_decl f)
  unfolding parse_decl
  parse_decl-Keeps f =
      Keeps->>= st (match_kind kw_const) _ (match_kind-Keeps st kw_const) (λ is_const q.
        Keeps-if st (is_null (token_to_type q.ctx.types q.curr.kind)) _ _ (refuse _)
          (Keeps->>= st advance_token _ (advance_token-Keeps st) (λ _ r.
            Keeps-if st (not (same_kind r.curr.kind ident)) _ _ (refuse _)
              (Keeps->>= st advance_token _ (advance_token-Keeps st)
                (λ _ u. parse_var_decl_list-Keeps f _ _ is_const u))
              r))
          q)
