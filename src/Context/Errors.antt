-- ===== src/Context/Errors.antt =====
-- The context's reporting: only the first error of a run is written.
use cact.Prelude.{
  ℕ, suc, String, ◌≡◌, refl, sym, ap, ◌∙◌, inl, inr, Bool, true, false, Option, if◌then◌else◌,
  Bool-cases, length, length-concat,
}
use cact.Context.{Message, text, Context, ctx_error, report_if}
use cact.Platform.{Platform}

module _ ⦃env : Platform⦄ where
  -- A context that a series of reports leads to.
  pub data Reported (ctx : Context) : Context → Type 0 where
    silent : Reported ctx ctx
    spoken :
        {ctx' : Context} (tok : Option ℕ) (msg : Message)
        → Reported ctx ctx'
        → Reported ctx (ctx_error ctx' tok msg)

  pub Reported-if :
      {ctx ctx' : Context} (bad : Bool) (tok : Option ℕ) (msg : String)
      → Reported ctx ctx'
      → Reported ctx (report_if bad ctx' tok msg)
  Reported-if true tok msg r = spoken tok (text msg) r
  Reported-if false tok msg r = r

  -- Both flags say whether anything was written, and that is one diagnostic at most.
  pub record SpeaksOnce (ctx : Context) : Type 0 where
    pub flags_agree : ctx.panic_mode ≡ ctx.had_error
    pub one_at_most : length ctx.stderr ≡ (if ctx.had_error then 1 else 0)

  pub ctx_error-SpeaksOnce :
      (ctx : Context) (tok : Option ℕ) (msg : Message)
      → SpeaksOnce ctx
      → SpeaksOnce (ctx_error ctx tok msg)
  unfolding ctx_error
  ctx_error-SpeaksOnce ctx tok msg h = elim (Bool-cases ctx.panic_mode) [
    | inl e ↦ simp e h
    | inr e ↦ simp e (record {
      flags_agree = refl;
      one_at_most =
          length-concat ctx.stderr _ ∙ ap suc (rw (sym h.flags_agree ∙ e) at h.one_at_most);
    })
  ]

  -- After a report the flags are set, and what was written before is still there, in front.
  pub ctx_error-first :
      (ctx : Context) (tok : Option ℕ) (msg : Message)
      → ctx.panic_mode ≡ true
      → ctx_error ctx tok msg ≡ ctx
  unfolding ctx_error
  ctx_error-first ctx tok msg h = simp h
