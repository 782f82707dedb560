-- ===== src/Parser/Crashes.antt =====
-- src/parser.c and src/sema.c: what a missing operand leads to.
pub mod Return
use cact.Prelude.{
  ℕ, suc, ◌+◌, String, ◌≡◌, refl, ◌∙◌, inl, inr, Bool, true, false, ◌||◌, none, some, List, [], ◌∷◌,
  Bool-cases,
}
use cact.Ast.{BinaryKind, Base, Node, null, type_of_node}
use cact.Context.{text, Context, ctx_error}
use cact.Driver.{report}
use cact.Outcome.{Outcome, fault, ok, faults-after}
use cact.Parser.Expr.{
  get_prec, get_binary_kind, level_from, parse_primary, parse_unary, parse_binary, parse_operators,
}
use cact.Parser.Halting.Checks.{type_of_node-Halts}
use cact.Parser.Halting.Expr.Starts.{primary_starts, expr_starts}
use cact.Parser.Monad.{Parser, Parse, continue, pure}
use cact.Parser.Tokens.{
  mem_kind, advance_token, parser_error_at, parser_error, match_kind, on_match,
}
use cact.Platform.{Platform}
use cact.Sema.{sema_analyze_binary}
use cact.Token.{
  TokenKind, ident, lit_int, lit_float, lit_double, kw_true, kw_false, plus, minus, l_paren,
  log_not, same_kind,
}

module _ ⦃env : Platform⦄ where
  on_match-miss :
      {A : Type 0} (kind : TokenKind) (a b : Parse A) (p : Parser)
      → same_kind p.curr.kind kind ≡ false
      → on_match kind a b p ≡ b p
  unfolding match_kind
  on_match-miss kind a b p e = rw e refl

  -- The check reads through the null pointer of the right operand.
  sema_analyze_binary-null :
      (ctx : Context) (kind : BinaryKind) (base : Base) (lhs : Node)
      → sema_analyze_binary ctx kind base lhs null ≡ fault
  unfolding sema_analyze_binary
  sema_analyze_binary-null ctx kind base lhs =
      faults-after (type_of_node lhs) _ (type_of_node-Halts lhs) λ ty. refl

  or_false : (a b : Bool) → (a || b) ≡ false → (a ≡ false) × (b ≡ false)
  or_false true b h = cc
  or_false false b h = (refl, h)

  -- One alternative less.
  next_alternative :
      {A : Type 0} (kind : TokenKind) (K : List TokenKind) (a b : Parse A)
      (o : Outcome (A × Parser)) (p : Parser)
      → mem_kind p.curr.kind (kind ∷ K) ≡ false
      → (mem_kind p.curr.kind K ≡ false → b p ≡ o)
      → on_match kind a b p ≡ o
  next_alternative kind K a b o p h rest =
      let (here, later) = or_false (same_kind p.curr.kind kind) (mem_kind p.curr.kind K) h in
      on_match-miss kind a b p here ∙ rest later

  -- Behind the report of a missing operand.
  abbrev reported : Parser → Outcome (Node × Parser)
  reported p = continue (parser_error "Expect expression" p) (λ _. pure null)

  parse_primary-missing :
      (f : ℕ) (p : Parser)
      → mem_kind p.curr.kind primary_starts ≡ false
      → parse_primary (suc f) p ≡ reported p
  unfolding parse_primary
  parse_primary-missing f p h =
      next_alternative lit_int (lit_float ∷ lit_double ∷ kw_true ∷ kw_false ∷ l_paren ∷ ident ∷ [])
        _ _ (reported p) p h
        λ h.
          next_alternative lit_float (lit_double ∷ kw_true ∷ kw_false ∷ l_paren ∷ ident ∷ []) _ _
            (reported p) p h
            λ h.
              next_alternative lit_double (kw_true ∷ kw_false ∷ l_paren ∷ ident ∷ []) _ _
                (reported p) p h
                λ h.
                  next_alternative kw_true (kw_false ∷ l_paren ∷ ident ∷ []) _ _ (reported p) p h
                    λ h. next_alternative kw_false (l_paren ∷ ident ∷ []) _ _ (reported p) p h λ h.
                      next_alternative l_paren (ident ∷ []) _ _ (reported p) p h
                        λ h. next_alternative ident [] _ _ (reported p) p h λ h. refl

  parse_unary-missing :
      (f : ℕ) (p : Parser)
      → mem_kind p.curr.kind expr_starts ≡ false
      → parse_unary (suc (suc f)) p ≡ reported p
  unfolding parse_unary
  parse_unary-missing f p h =
      next_alternative plus (minus ∷ log_not ∷ primary_starts) _ _ (reported p) p h λ h.
        next_alternative minus (log_not ∷ primary_starts) _ _ (reported p) p h λ h.
          next_alternative log_not primary_starts _ _ (reported p) p h
            λ h. parse_primary-missing f p h

  -- A report leaves the current token.
  parser_error-curr :
      (msg : String) (p : Parser)
      → (q : Parser) × (parser_error msg p ≡ ok (tt, q)) × (q.curr ≡ p.curr)
  unfolding parser_error parser_error_at
  parser_error-curr msg p = elim (Bool-cases p.panic_mode) [
    | inl e ↦ (p, rw e refl, refl)
    | inr e ↦ (
      record p { panic_mode = true; ctx = ctx_error p.ctx (some p.curr.span_start) (text msg) },
      rw e refl,
      refl,
    )
  ]

  operators_end :
      (f prec : ℕ) (lhs : Node) (p : Parser)
      → level_from prec (get_prec p.curr.kind) ≡ none
      → parse_operators (suc f) prec lhs p ≡ ok (lhs, p)
  unfolding parse_operators
  operators_end f prec lhs p e = rw e refl

  parse_binary-missing :
      (f prec : ℕ) (p : Parser)
      → mem_kind p.curr.kind expr_starts ≡ false
      → level_from prec (get_prec p.curr.kind) ≡ none
      → (q : Parser) × (parse_binary (suc (suc (suc f))) prec p ≡ ok (null, q))
  unfolding parse_binary
  parse_binary-missing f prec p h e =
      let (q, report, same) = parser_error-curr "Expect expression" p in
      (q, rw (parse_unary-missing f p h, report) (operators_end (suc f) prec null q (rw same e)))

  -- Where a binary operator of a level that the loop takes is not followed by an operand, nor by
  -- another operator of a higher level, the parse of the expression ends in a read through the null
  -- pointer that stands for the operand, whatever is on the left.
  pub parse_operators-missing :
      (f prec current : ℕ) (lhs : Node) (p q : Parser)
      → level_from prec (get_prec p.curr.kind) ≡ some current
      → advance_token p ≡ ok (tt, q)
      → mem_kind q.curr.kind expr_starts ≡ false
      → level_from (current + 1) (get_prec q.curr.kind) ≡ none
      → parse_operators (suc (suc (suc (suc f)))) prec lhs p ≡ fault
  unfolding parse_operators sema_analyze_binary
  parse_operators-missing f prec current lhs p q level next h e =
      let (r, missing) = parse_binary-missing f (current + 1) q h e in
      rw
        (
          level,
          next,
          missing,
          sema_analyze_binary-null r.ctx (get_binary_kind p.curr.kind)
              (record { tok = r.prev; node_type = none }) lhs,
        )
        refl
