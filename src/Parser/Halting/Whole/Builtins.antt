-- ===== src/Parser/Halting/Whole/Builtins.antt =====
-- The builtin functions are installed to the end.
use cact.Prelude.{ℕ, false, not, none, Bytes, codes}
use cact.Parser.Halting.{done, Done-bind, At, Ends}
use cact.Parser.Halting.Checks.{define_var-Ends, add_param-Ends, make_func-Ends}
use cact.Parser.Halting.Steps.{when-Ends}
use cact.Parser.Monad.{Parser, Parse, ◌>>◌, when}
use cact.Parser.Tokens.{token_to_type, define_var}
use cact.Parser.TopLevel.{add_param, make_func, install_builtin}
use cact.Platform.{Platform}
use cact.Platform.Laws.{CharLaws}
use cact.Token.{TokenKind, kw_int, kw_bool, kw_float, kw_double, kw_void}
use cact.Types.{TypePtr, TypeStore, is_null}
use cact.Types.Ranked.Kept.{PlainIn}

module _ ⦃env : Platform⦄ (laws : CharLaws env) (n : ℕ) (s : TypeStore) where
  intern_there :
      (c : ℕ) (p : Parser) (itn : env.Interner)
      → At n s c p
      → At n s c (record p { ctx = record (p.ctx) { itn = itn } })
  intern_there c p itn w = record { room = w.room; follows = w.follows; running = w.running }

  builtin_end :
      (name : Bytes) (ret arg : TypePtr) (c : ℕ) (p : Parser)
      → PlainIn s ret
      → PlainIn s arg
      → At n s c p
      → Ends n s c (install_builtin name ret arg p)
  unfolding install_builtin
  builtin_end name ret arg c p plain_ret plain_arg w =
      Done-bind (make_func ret p) _
        (make_func-Ends n s ret c p w (w.follows.still_plain ret plain_ret))
        λ func_ty p₁ w₁.
          Done-bind (when (not (is_null arg)) (add_param func_ty arg) p₁) _
            (when-Ends laws n s (not (is_null arg)) (add_param func_ty arg) c p₁ w₁
              (λ _. add_param-Ends n s func_ty arg c p₁ w₁ (w₁.follows.still_plain arg plain_arg)))
            λ _ p₂ w₂.
              let interned = env.intern p₂.ctx.itn name in
              let p₃ : Parser = record p₂ { ctx = record (p₂.ctx) { itn = interned.0 } } in
              Done-bind (define_var interned.1 func_ty false p₃) _
                (define_var-Ends n s interned.1 func_ty false c p₃
                  (intern_there c p₂ interned.0 w₂))
                λ symbol p₄ w₄. done w₄

  -- The builtins, with the global types of `t`.
  abbrev pub builtins_of : TypeStore → Parse (Unit {0})
  builtins_of t = do
    install_builtin (codes "print_int") t.ty_void t.ty_int
    install_builtin (codes "print_float") t.ty_void t.ty_float
    install_builtin (codes "print_double") t.ty_void t.ty_double
    install_builtin (codes "print_bool") t.ty_void t.ty_bool
    install_builtin (codes "get_int") t.ty_int none
    install_builtin (codes "get_float") t.ty_float none
    install_builtin (codes "get_double") t.ty_double none

  pub builtins_end :
      (t : TypeStore)
      → ((k : TokenKind) → PlainIn s (token_to_type t k))
      → (c : ℕ) (p : Parser) → At n s c p
      → Ends n s c (builtins_of t p)
  unfolding token_to_type
  builtins_end t plain c p w =
      Done-bind (install_builtin (codes "print_int") t.ty_void t.ty_int p) _
        (builtin_end _ _ _ c p (plain kw_void) (plain kw_int) w)
        λ _ p₁ w₁.
          Done-bind (install_builtin (codes "print_float") t.ty_void t.ty_float p₁) _
            (builtin_end _ _ _ c p₁ (plain kw_void) (plain kw_float) w₁)
            λ _ p₂ w₂.
              Done-bind (install_builtin (codes "print_double") t.ty_void t.ty_double p₂) _
                (builtin_end _ _ _ c p₂ (plain kw_void) (plain kw_double) w₂)
                λ _ p₃ w₃.
                  Done-bind (install_builtin (codes "print_bool") t.ty_void t.ty_bool p₃) _
                    (builtin_end _ _ _ c p₃ (plain kw_void) (plain kw_bool) w₃)
                    λ _ p₄ w₄.
                      Done-bind (install_builtin (codes "get_int") t.ty_int none p₄) _
                        (builtin_end _ _ none c p₄ (plain kw_int) tt w₄)
                        λ _ p₅ w₅.
                          Done-bind (install_builtin (codes "get_float") t.ty_float none p₅) _
                            (builtin_end _ _ none c p₅ (plain kw_float) tt w₅)
                            λ _ p₆ w₆. builtin_end _ t.ty_double none c p₆ (plain kw_double) tt w₆
