-- ===== src/Sema/Scopes.antt =====
-- Scopes: definitions, lookups and shadowing.
use cact.Prelude.{
  ℕ, ◌≡◌, refl, ap, ◌∙◌, inl, inr, Bool, Option, none, some, List, ◌∷◌, ◌==◌, if◌then◌else◌, ==_iff,
  Bool-cases, Option-cases,
}
use cact.Ast.{SemaSymbol}
use cact.Context.{sym_hash, sym_eq, map_ops_symbol, text, Context, ctx_error}
use cact.Platform.{Platform}
use cact.Platform.Laws.{IsLawful, MapLaws}
use cact.Sema.{
  Scope, Sema, is_outermost, define_in, define_scopes, sema_define_var, lookup_scopes, sema_lookup,
}
use cact.Types.{TypePtr}

-- The map operations that the program hands to fluf are lawful.
pub map_ops_symbol-IsLawful : IsLawful map_ops_symbol
unfolding sym_hash sym_eq
map_ops_symbol-IsLawful = record {
  equals_iff = ==_iff;
  hash_equals = λ j k h. ap sym_hash ((==_iff j k).0 h);
}

module _ ⦃env : Platform⦄ where
  -- The symbol of a name that `parents` enclose.
  abbrev pub symbol_for : List Scope → ℕ → TypePtr → Bool → SemaSymbol
  symbol_for parents x ty is_const = record {
    symbol_name = x;
    ty = ty;
    is_const = is_const;
    is_global = is_outermost parents;
    stack_offset = 0;
  }

module _ ⦃env : Platform⦄ where
  define_in_again :
      (ctx : Context) (s : Sema) (sc : Scope) (parents : List Scope) (x : ℕ) (ty : TypePtr)
      (is_const : Bool) (found : Option SemaSymbol) {old : SemaSymbol}
      → found ≡ some old
      → define_in ctx s sc parents x ty is_const found
        ≡ (none, ctx_error ctx none (text "Redefinition of symbol in the same scope"), s)
  define_in_again ctx s sc parents x ty is_const found e =
      ap (define_in ctx s sc parents x ty is_const) e

module _ ⦃env : Platform⦄ (laws : MapLaws env) where
  lookup_defined :
      (sc : Scope) (parents : List Scope) (x y : ℕ) (v : SemaSymbol)
      → laws.Made SemaSymbol map_ops_symbol sc
      → lookup_scopes (env.map_put SemaSymbol sc x v ∷ parents) y
        ≡ (if y == x then some v else lookup_scopes (sc ∷ parents) y)
  unfolding lookup_scopes
  lookup_defined sc parents x y v made =
      rw
        (
          laws.get-put SemaSymbol map_ops_symbol sc y x v map_ops_symbol-IsLawful made,
          lookup_scopes,
        )
        (elim (Bool-cases (y == x)) [ inl e ↦ rw e refl | inr e ↦ rw e refl ])

  -- A name that the innermost scope `sc` does not have is defined, without a report: its symbol is
  -- global exactly if there is no enclosing scope, lookups of the name find it, whatever it meant
  -- outside, and lookups of any other name find what they found before.
  pub sema_define_var-lookup :
      (ctx : Context) (s : Sema) (sc : Scope) (parents : List Scope) (x : ℕ) (ty : TypePtr)
      (is_const : Bool)
      → s.scopes ≡ sc ∷ parents
      → laws.Made SemaSymbol map_ops_symbol sc
      → env.map_get SemaSymbol sc x ≡ none
      → let (symbol, ctx', s') = sema_define_var ctx s x ty is_const in
        (symbol ≡ some (symbol_for parents x ty is_const))
        × (ctx' ≡ ctx)
        × ((y : ℕ)
            → sema_lookup s' y
              ≡ (if y == x then some (symbol_for parents x ty is_const) else sema_lookup s y))
  unfolding sema_define_var define_scopes sema_lookup
  sema_define_var-lookup ctx s sc parents x ty is_const e made new =
      rw (e, new)
        (refl, refl, λ y. lookup_defined sc parents x y (symbol_for parents x ty is_const) made)

  redefined :
      (ctx : Context) (s : Sema) (sc : Scope) (parents : List Scope) (x : ℕ) (ty : TypePtr)
      (is_const : Bool) {old : SemaSymbol}
      → s.scopes ≡ sc ∷ parents
      → env.map_get SemaSymbol sc x ≡ some old
      → sema_define_var ctx s x ty is_const
        ≡ (none, ctx_error ctx none (text "Redefinition of symbol in the same scope"), s)
  unfolding sema_define_var define_scopes
  redefined ctx s sc parents x ty is_const e there =
      ap (λ scopes. define_scopes ctx s scopes x ty is_const) e
      ∙ define_in_again ctx s sc parents x ty is_const (env.map_get SemaSymbol sc x) there

  -- Once a name was defined, or was to be, in a scope of which the map was made with the program's
  -- operations, a second definition of the name there is refused, whatever its type: the error is
  -- reported, and no scope changes.
  pub sema_define_var-redefinition :
      (ctx : Context) (s : Sema) (sc : Scope) (parents : List Scope) (x : ℕ) (ty ty' : TypePtr)
      (is_const is_const' : Bool)
      → s.scopes ≡ sc ∷ parents
      → laws.Made SemaSymbol map_ops_symbol sc
      → let (symbol, ctx₁, s₁) = sema_define_var ctx s x ty is_const in
        sema_define_var ctx₁ s₁ x ty' is_const'
        ≡ (none, ctx_error ctx₁ none (text "Redefinition of symbol in the same scope"), s₁)
  unfolding sema_define_var define_scopes
  sema_define_var-redefinition ctx s sc parents x ty ty' is_const is_const' e made =
      elim (Option-cases (env.map_get SemaSymbol sc x)) [
        | inl new ↦
            let v = symbol_for parents x ty is_const in
            let sc' = env.map_put SemaSymbol sc x v in
            rw (e, new)
              (redefined ctx (record s { scopes = sc' ∷ parents }) sc' parents x ty' is_const' refl
                (laws.get-put SemaSymbol map_ops_symbol sc x x v map_ops_symbol-IsLawful made
                  ∙ ap (λ b. if b then some v else env.map_get SemaSymbol sc x)
                      ((==_iff x x).1 refl)))
        | inr (old, there) ↦ rw (redefined ctx s sc parents x ty is_const e there) (
            redefined (ctx_error ctx none (text "Redefinition of symbol in the same scope")) s sc
              parents x ty' is_const' e there)
      ]
