-- ===== src/Parser/Halting/Whole/Recovery.antt =====
-- The recovery at the top level comes to an end, and steps over what begins no declaration.
use cact.Prelude.{
  ℕ, suc, String, ◌≡◌, refl, inl, inr, Bool, true, false, not, ◌&&◌, ◌||◌, arith, Bool-cases,
}
use cact.Parser.Halting.{Done, done, Done-bind, Done-mono, At, At-mono}
use cact.Parser.Halting.Decl.Starts.{decl_starts}
use cact.Parser.Halting.Steps.{
  advance_token-Ends, advance_token-Eats, parser_error-Done, when-Ends, Synchronized,
  synchronize-Done,
}
use cact.Parser.Halting.Stmt.Simple.{decl_first}
use cact.Parser.Monad.{Parser, Parse, when}
use cact.Parser.Tokens.{mem_kind, advance_token, parser_error, synchronize, token_to_type}
use cact.Parser.TopLevel.{recover}
use cact.Platform.{Platform}
use cact.Platform.Laws.{CharLaws}
use cact.Token.{TokenKind, eof, kw_const, same_kind}
use cact.Types.{TypeStore, is_null}
use cact.Types.Shape.{IsReady}

module _ ⦃env : Platform⦄ (laws : CharLaws env) (n : ℕ) (s : TypeStore) where
  -- At the top level's loop, what is in its way is used up, if `parse_top_level` left it.
  abbrev Unstuck : ℕ → Parser → Parser → Type 0
  Unstuck c p q =
      At n s c q
      × (mem_kind p.curr.kind decl_starts ≡ false
          → same_kind p.curr.kind eof ≡ false
          → At n s (suc c) q)

  abbrev is_start : TypeStore → TokenKind → Bool
  is_start t k = not (is_null (token_to_type t k)) || same_kind k kw_const

  no_start :
      (t : TypeStore) (k : TokenKind)
      → IsReady t
      → mem_kind k decl_starts ≡ false
      → is_start t k ≡ false
  no_start t k r m = elim (Bool-cases (is_start t k)) [
    | inl e ↦ let m' : true ≡ false = rw (decl_first laws n s t k r e) at m in cc m'
    | inr e ↦ e
  ]

  and_not : (a b : Bool) → (not a && not b) ≡ true → b ≡ false
  and_not true true e = cc
  and_not false true e = cc
  and_not a false e = refl

  Done-when :
      {R : Parser → Type 0} (b : Bool) (m : Parse (Unit {0})) (p : Parser)
      → (b ≡ true → Done (λ _ q. R q) (m p))
      → (b ≡ false → R p)
      → Done (λ _ q. R q) (when b m p)
  Done-when true m p h k = h refl
  Done-when false m p h k = done (k refl)

  -- `recover` from the test of the current token on.
  step_over :
      (c : ℕ) (p q : Parser)
      → Synchronized laws n s c p q
      → Done
          (λ _ r. Unstuck c p r)
          (when
            (not (is_start q.ctx.types q.curr.kind) && not (same_kind q.curr.kind eof))
            advance_token
            q)
  step_over c p q (w, inr v) =
      Done-mono _
        (when-Ends laws n s
          (not (is_start q.ctx.types q.curr.kind) && not (same_kind q.curr.kind eof)) advance_token
          (suc c) q v (λ _. advance_token-Ends laws n s (suc c) q v))
        λ _ r u. (At-mono (suc c) c (omega arith) u, λ _ _. u)
  step_over c p q (w, inl same) =
      let k = q.curr.kind in
      let stands = is_start q.ctx.types k in
      Done-when (not stands && not (same_kind k eof)) advance_token q
        (λ e.
          Done-mono _ (advance_token-Eats laws n s c q w (and_not stands (same_kind k eof) e))
            λ _ r u. (At-mono (suc c) c (omega arith) u, λ _ _. u))
        (λ e. (
          w,
          λ m ne.
              let m' : mem_kind k decl_starts ≡ false = rw same m in
              let ne' : same_kind k eof ≡ false = rw same ne in
              let e' : true ≡ false =
                rw (no_start q.ctx.types k w.follows.well_formed.ready m', ne') at e in
              cc e',
        ))

  synchronized :
      (panic : Bool) (c : ℕ) (p : Parser)
      → At n s c p
      → Done (λ _ q. Synchronized laws n s c p q) (when panic synchronize p)
  synchronized true c p w = synchronize-Done laws n s c p w
  synchronized false c p w = done (w, inl refl)

  complained :
      (b : Bool) (msg : String) (c : ℕ) (p : Parser)
      → At n s c p
      → Done (λ _ q. At n s c q × (q.curr ≡ p.curr)) (when b (parser_error msg) p)
  complained true msg c p w = parser_error-Done laws n s msg c p w
  complained false msg c p w = done (w, refl)

  pub recover-Done : (c : ℕ) (p : Parser) → At n s c p → Done (λ _ r. Unstuck c p r) (recover p)
  unfolding recover
  recover-Done c p w =
      Done-bind
        (when (not p.ctx.had_error && not p.panic_mode)
          (parser_error "Unexpected token at top level") p)
        _ (complained (not p.ctx.had_error && not p.panic_mode) _ c p w)
        λ _ p₁ (w₁, same).
          Done-bind (when p₁.panic_mode synchronize p₁) _ (synchronized p₁.panic_mode c p₁ w₁)
            λ _ q v.
              Done-mono _ (step_over c p₁ q v)
                λ _ r (u, moved). (u, λ m ne. moved (rw same m) (rw same ne))
