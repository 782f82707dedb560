-- ===== src/Parser/Halting/Steps.antt =====
-- The parser's helpers come to an end.
use cact.Prelude.{
  ℕ, zero, suc, ◌+◌, ◌-◌, ◌≤◌, ◌<◌, String, ◌≡◌, refl, ap, ◌∙◌, ◌≢◌, ◌⊎◌, inl, inr, Bool, true,
  false, some, List, ◌∷◌, arith, if◌then◌else◌, Bool-cases, length,
}
use cact.Context.{text, Context}
use cact.Lexer.{Lexer, fuel_of}
use cact.Lexer.Next.{lexer_next}
use cact.Lexer.Next.Reports.{lexer_next-context}
use cact.Lexer.Progress.Next.{Advances, lexer_next-Advances}
use cact.Lexer.Scan.{Scanned}
use cact.Outcome.{Outcome, fault, out_of_fuel, ok}
use cact.Parser.Halting.{
  weight, left, Done, done, faulted, Done-bind, Done-mono, At, At-mono, Ends, Eats,
}
use cact.Parser.Monad.{Parser, Parse, pure, when}
use cact.Parser.Tokens.{
  mem_kind, sync_kinds, next_token, advance_token, parser_error_at, parser_error, consume,
  match_kind, on_match, sync_loop, synchronize,
}
use cact.Platform.{Platform}
use cact.Platform.Laws.{CharLaws}
use cact.Sema.Returns.{ctx_error-types}
use cact.Token.{TokenKind, eof, error, semicolon, same_kind, same_kind_iff}
use cact.Types.{TypeStore}
use cact.Types.Ranked.Kept.{Follows}

abbrev bytes_left : Lexer → ℕ
bytes_left l = length l.content - l.cursor

module _ ⦃env : Platform⦄ (laws : CharLaws env) (n : ℕ) (s : TypeStore) where
  lexer_next-Follows :
      (ctx : Context) (l : Lexer) → Follows s ctx.types → Follows s (lexer_next ctx l).1.types
  lexer_next-Follows ctx l h =
      lexer_next-context {P = λ c. Follows s c.types}
        (λ c tok msg k. rw (ctx_error-types c tok msg) k) (λ c itn k. k) ctx h l

  abbrev NextDone : ℕ → Outcome Parser → Type 0
  NextDone b (ok q) = (left q ≤ b) × Follows s q.ctx.types × (q.lex.cut_off ≡ false)
  NextDone b fault = Unit
  NextDone b out_of_fuel = ⊥

  NextDone-mono : (b b' : ℕ) (o : Outcome Parser) → b ≤ b' → NextDone b o → NextDone b' o
  NextDone-mono b b' (ok q) k (h, f, on) = (omega (arith, h), f, on)
  NextDone-mono b b' fault k h = tt
  NextDone-mono b b' out_of_fuel k h = absurd h

  not_eof :
      (k j : TokenKind) → same_kind k j ≡ true → same_kind j eof ≡ false → same_kind k eof ≡ false
  not_eof k j e d = rw ((same_kind_iff k j).0 e) d

  -- What `lexer_next` leaves, if its token is not the end.
  fewer_bytes :
      (l : Lexer) (r : Scanned) → Advances l r → r.0.kind ≢ eof → bytes_left r.2 < bytes_left l
  fewer_bytes l (tok, ctx, r) (a, m) ne =
      let k = m ne in omega (arith, k.further, k.began, ap length a.same_bytes)

  left_after :
      (l : Lexer) (r : Scanned) → Advances l r → bytes_left r.2 + weight r.0.kind ≤ bytes_left l
  left_after l (tok, ctx, r) (a, m) = elim (Bool-cases (same_kind tok.kind eof)) [
    | inl e ↦ rw e (omega (arith, a.onward, ap length a.same_bytes))
    | inr e ↦ rw e (
        let k = m (λ h. cc (e, (same_kind_iff tok.kind eof).1 h)) in
        omega (arith, k.further, k.began, ap length a.same_bytes))
  ]

  next_token-Done :
      (fuel : ℕ) (p : Parser)
      → Follows s p.ctx.types
      → p.lex.cut_off ≡ false
      → bytes_left p.lex < fuel
      → NextDone (bytes_left p.lex) (next_token fuel p)
  unfolding next_token
  next_token-Done zero p h on room = absurd (omega arith)
  next_token-Done (suc fuel) p h on room =
      let r = lexer_next p.ctx p.lex in
      let a = lexer_next-Advances laws p.ctx p.lex in
      let f = lexer_next-Follows p.ctx p.lex h in
      let on' : r.2.cut_off ≡ false = a.0.ran ∙ on in
      rw on' (elim (Bool-cases (same_kind r.0.kind error)) [
        | inl e ↦
            let less = fewer_bytes p.lex r a (λ k. cc (k, (same_kind_iff r.0.kind error).0 e)) in
            rw e (
              NextDone-mono (bytes_left r.2) (bytes_left p.lex) _ (omega (arith, less)) (
                next_token-Done fuel (record p { ctx = r.1; lex = r.2; curr = r.0 }) f on'
                  (omega (arith, less))))
        | inr e ↦ rw e (left_after p.lex r a, f, on')
      ])

  token_taken :
      (b : ℕ) (o : Outcome Parser)
      → NextDone b o
      → Done
          (λ _ q. (left q ≤ b) × Follows s q.ctx.types × (q.lex.cut_off ≡ false))
          (elim o [ ok p' ↦ ok (tt, p') | fault ↦ fault | out_of_fuel ↦ out_of_fuel ])
  token_taken b (ok q) h = done h
  token_taken b fault h = faulted
  token_taken b out_of_fuel h = absurd h

  -- A token is used up, unless it is the end.
  pub advance_token-Done :
      (c : ℕ) (p : Parser) → At n s c p → Ends n s (weight p.curr.kind + c) (advance_token p)
  unfolding advance_token
  advance_token-Done c p w =
      Done-mono _
        (token_taken (bytes_left p.lex) (next_token (fuel_of p.lex) (record p { prev = p.curr })) (
          next_token-Done (fuel_of p.lex) (record p { prev = p.curr }) w.follows w.running
            (omega arith)))
        λ _ q (h, f, on). record { room = omega (arith, h, w.room); follows = f; running = on }

  pub advance_token-Ends : (c : ℕ) (p : Parser) → At n s c p → Ends n s c (advance_token p)
  advance_token-Ends c p w =
      Done-mono _ (advance_token-Done c p w) λ _ q. At-mono (weight p.curr.kind + c) c (omega arith)

  pub advance_token-Eats :
      (c : ℕ) (p : Parser)
      → At n s c p
      → same_kind p.curr.kind eof ≡ false
      → Ends n s (suc c) (advance_token p)
  advance_token-Eats c p w e =
      Done-mono _ (advance_token-Done c p w)
        λ _ q. At-mono (weight p.curr.kind + c) (suc c) (rw e (omega arith))

  pub parser_error-Done :
      (msg : String) (c : ℕ) (p : Parser)
      → At n s c p
      → Done (λ _ q. At n s c q × (q.curr ≡ p.curr)) (parser_error msg p)
  unfolding parser_error parser_error_at
  parser_error-Done msg c p w = elim (Bool-cases p.panic_mode) [
    | inl e ↦ simp e (done (w, refl))
    | inr e ↦ simp e (
        done (
          record {
            room = w.room;
            follows = rw (ctx_error-types p.ctx (some p.curr.span_start) (text msg)) w.follows;
            running = w.running;
          },
          refl,
        ))
  ]

  pub parser_error-Ends :
      (msg : String) (c : ℕ) (p : Parser) → At n s c p → Ends n s c (parser_error msg p)
  parser_error-Ends msg c p w = Done-mono _ (parser_error-Done msg c p w) λ _ q (v, _). v

  pub consume-Ends :
      (kind : TokenKind) (msg : String) (c : ℕ) (p : Parser)
      → At n s c p
      → Ends n s c (consume kind msg p)
  unfolding consume
  consume-Ends kind msg c p w = elim (Bool-cases (same_kind p.curr.kind kind)) [
    | inl e ↦ rw e (advance_token-Ends c p w)
    | inr e ↦ rw e (parser_error-Ends msg c p w)
  ]

  -- The token is there.
  pub consume-Eats :
      (kind : TokenKind) (msg : String) (c : ℕ) (p : Parser)
      → At n s c p
      → same_kind kind eof ≡ false
      → same_kind p.curr.kind kind ≡ true
      → Ends n s (suc c) (consume kind msg p)
  unfolding consume
  consume-Eats kind msg c p w d e = rw e (advance_token-Eats c p w (not_eof p.curr.kind kind e d))

  -- The token was there and is used up, or it was not and nothing happened.
  abbrev pub Matched : TokenKind → ℕ → Parser → Bool → Parser → Type 0
  Matched kind c p true q = (same_kind p.curr.kind kind ≡ true) × At n s (suc c) q
  Matched kind c p false q = (same_kind p.curr.kind kind ≡ false) × (q ≡ p)

  pub match_kind-Done :
      (kind : TokenKind) (c : ℕ) (p : Parser)
      → At n s c p
      → same_kind kind eof ≡ false
      → Done (Matched kind c p) (match_kind kind p)
  unfolding match_kind
  match_kind-Done kind c p w d = elim (Bool-cases (same_kind p.curr.kind kind)) [
    | inl e ↦ rw e (
        Done-bind (advance_token p) (λ _. pure true)
          (advance_token-Eats c p w (not_eof p.curr.kind kind e d)) λ _ q w'. done (e, w'))
    | inr e ↦ rw e (done (e, refl))
  ]

  pub on_match-Done :
      {A : Type 0} {R : A → Parser → Type 0} (kind : TokenKind) (a b : Parse A) (c : ℕ) (p : Parser)
      → At n s c p
      → same_kind kind eof ≡ false
      → ((q : Parser) → At n s (suc c) q → same_kind p.curr.kind kind ≡ true → Done R (a q))
      → (same_kind p.curr.kind kind ≡ false → Done R (b p))
      → Done R (on_match kind a b p)
  on_match-Done {A} {R} kind a b c p w d ha hb =
      Done-bind (match_kind kind p) (λ matched. if matched then a else b)
        (match_kind-Done kind c p w d) go
    where
      go : (m : Bool) (q : Parser) → Matched kind c p m q → Done R ((if m then a else b) q)
      go true q (e, w') = ha q w' e
      go false q (e, same) = rw same (hb e)

  -- A chain of `on_match` uses up a token if it begins with one of the kinds.
  pub on_match-Eats :
      {A : Type 0} (K : List TokenKind) (kind : TokenKind) (a b : Parse A) (c : ℕ) (p : Parser)
      → At n s c p
      → same_kind kind eof ≡ false
      → ((q : Parser) → At n s (suc c) q → Ends n s (suc c) (a q))
      → (same_kind p.curr.kind kind ≡ false → Eats n s K c b p)
      → Eats n s (kind ∷ K) c (on_match kind a b) p
  on_match-Eats K kind a b c p w d ha hb =
      on_match-Done kind a b c p w d
        (λ q w' e. Done-mono (a q) (ha q w') λ _ r. At-mono (suc c) _ (rw e (omega arith)))
        (λ e. Done-mono (b p) (hb e) λ _ r h. rw e h)

  pub when-Ends :
      (b : Bool) (m : Parse (Unit {0})) (c : ℕ) (p : Parser)
      → At n s c p
      → (b ≡ true → Ends n s c (m p))
      → Ends n s c (when b m p)
  when-Ends true m c p w h = h refl
  when-Ends false m c p w h = done w

module _ ⦃env : Platform⦄ (laws : CharLaws env) where
  -- A later state in which a token more is used up.
  next_state :
      {n : ℕ} {s : TypeStore} {c : ℕ} {p q : Parser}
      → At n s c p
      → At (left p) s 1 q
      → At n s (suc c) q
  next_state w v = record {
    room = omega (arith, w.room, v.room);
    follows = v.follows;
    running = v.running;
  }

  -- The current token is of the same kind as before, or a token is used up.
  abbrev pub Synchronized : ℕ → TypeStore → ℕ → Parser → Parser → Type 0
  Synchronized n s c p q = At n s c q × ((q.curr.kind ≡ p.curr.kind) ⊎ At n s (suc c) q)

  sync_loop-Done :
      (fuel n : ℕ) (s : TypeStore) (c : ℕ) (p : Parser)
      → At n s c p
      → left p < fuel
      → Done (λ _ q. Synchronized n s c p q) (sync_loop fuel p)
  unfolding sync_loop
  sync_loop-Done zero n s c p w h = absurd (omega arith)
  sync_loop-Done (suc fuel) n s c p w h = elim (Bool-cases (same_kind p.curr.kind eof)) [
    | inl e ↦ rw e (done (w, inl refl))
    | inr e ↦ rw e (elim (Bool-cases (same_kind p.prev.kind semicolon)) [
      | inl e' ↦ rw e' (done (w, inl refl))
      | inr e' ↦ rw e' (elim (Bool-cases (mem_kind p.curr.kind sync_kinds)) [
        | inl m ↦ rw m (done (w, inl refl))
        | inr m ↦ rw m (
            Done-bind (advance_token p) _
              (advance_token-Eats laws (left p) s 0 p
                (record { room = omega arith; follows = w.follows; running = w.running }) e)
              λ _ q v.
                let u = next_state w v in
                Done-mono _ (sync_loop-Done fuel n s (suc c) q u (omega (arith, v.room)))
                  λ _ r (t, _). (At-mono (suc c) c (omega arith) t, inr t))
      ])
    ])
  ]

  pub synchronize-Done :
      (n : ℕ) (s : TypeStore) (c : ℕ) (p : Parser)
      → At n s c p
      → Done (λ _ q. Synchronized n s c p q) (synchronize p)
  unfolding synchronize
  synchronize-Done n s c p w =
      sync_loop-Done (suc (fuel_of p.lex)) n s c (record p { panic_mode = false })
        (record { room = w.room; follows = w.follows; running = w.running })
        (elim (Bool-cases (same_kind p.curr.kind eof)) [
          | inl e ↦ rw e (omega arith)
          | inr e ↦ rw e (omega arith)
        ])
