-- ===== src/Context/Keywords.antt =====
-- The table of keywords that `context_init` fills.
use cact.Prelude.{
  ℕ, ◌≡◌, refl, ◌≢◌, inl, inr, Bool, true, false, not, ◌&&◌, some, List, [], ◌∷◌, ◌==◌, ==_iff,
  Bool-cases, and_true, Bytes,
}
use cact.Context.{map_ops_symbol, Context, install_keyword, install_keywords, context_init}
use cact.Platform.{Platform}
use cact.Platform.Laws.{MapLaws, InternLaws}
use cact.Sema.Scopes.{map_ops_symbol-IsLawful}
use cact.Token.{TokenKind, keywords}
use cact.Types.{TypeStore}

-- Two texts with the same bytes.
abbrev same_bytes_text : Bytes → Bytes → Bool
same_bytes_text [] [] = true
same_bytes_text (a ∷ as_) (b ∷ bs) = a == b && same_bytes_text as_ bs
same_bytes_text _ _ = false

same_bytes_text_self : (a : Bytes) → same_bytes_text a a ≡ true
same_bytes_text_self [] = refl
same_bytes_text_self (x ∷ a) = rw ((==_iff x x).1 refl) (same_bytes_text_self a)

abbrev fresh : Bytes → List (Bytes × TokenKind) → Bool
fresh str [] = true
fresh str ((str', kind) ∷ ks) = not (same_bytes_text str str') && fresh str ks

abbrev distinct : List (Bytes × TokenKind) → Bool
distinct [] = true
distinct ((str, kind) ∷ ks) = fresh str ks && distinct ks

different : (a b : Bytes) → not (same_bytes_text a b) ≡ true → a ≢ b
different a b h e =
    let self : same_bytes_text a b ≡ true = rw (← e) (same_bytes_text_self a) in
    let h' : false ≡ true = rw self at h in cc h'

module _ ⦃env : Platform⦄ (maps : MapLaws env) (names : InternLaws env) where
  -- The text is known, and the table has the kind for it.
  abbrev pub Knows : Context → Bytes → TokenKind → Type 0
  Knows ctx str kind =
      (x : ℕ) × names.Holds ctx.itn str x × (env.map_get TokenKind ctx.kw_map x ≡ some kind)

  abbrev pub KnowsAll : Context → List (Bytes × TokenKind) → Type 0
  KnowsAll ctx [] = Unit
  KnowsAll ctx ((str, kind) ∷ ks) = Knows ctx str kind × KnowsAll ctx ks

  -- More interned names change nothing.
  pub KnowsAll-kept :
      (ks : List (Bytes × TokenKind)) (ctx : Context) (str : Bytes)
      → KnowsAll ctx ks
      → KnowsAll (record ctx { itn = (env.intern ctx.itn str).0 }) ks
  KnowsAll-kept [] ctx str h = tt
  KnowsAll-kept ((str', kind') ∷ ks) ctx str ((x, holds, at_x), h) =
      ((x, names.kept ctx.itn str' str x holds, at_x), KnowsAll-kept ks ctx str h)

  abbrev Made : Context → Type 0
  Made ctx = maps.Made TokenKind map_ops_symbol ctx.kw_map

  installed :
      (str : Bytes) (kind : TokenKind) (ctx : Context)
      → Made ctx
      → Knows (install_keyword (str, kind) ctx) str kind
  unfolding install_keyword
  installed str kind ctx made =
      let x = (env.intern ctx.itn str).1 in
      (
        x,
        names.interned ctx.itn str,
        rw
            (
              maps.get-put TokenKind map_ops_symbol ctx.kw_map x x kind map_ops_symbol-IsLawful
                  made,
              (==_iff x x).1 refl,
            )
            refl,
      )

  install_keyword-Made :
      (k : Bytes × TokenKind) (ctx : Context) → Made ctx → Made (install_keyword k ctx)
  unfolding install_keyword
  install_keyword-Made (str, kind) ctx made =
      maps.made_put TokenKind map_ops_symbol ctx.kw_map (env.intern ctx.itn str).1 kind made

  -- Another text changes nothing for this one.
  still_known :
      (str str' : Bytes) (kind kind' : TokenKind) (ctx : Context)
      → str ≢ str'
      → Made ctx
      → Knows ctx str kind
      → Knows (install_keyword (str', kind') ctx) str kind
  unfolding install_keyword
  still_known str str' kind kind' ctx ne made (x, holds, at_x) =
      let y = (env.intern ctx.itn str').1 in
      let holds' = names.kept ctx.itn str str' x holds in
      (
        x,
        holds',
        rw (maps.get-put TokenKind map_ops_symbol ctx.kw_map x y kind' map_ops_symbol-IsLawful made)
            (elim (Bool-cases (x == y)) [
              | inl e ↦
                  let same : x ≡ y = (==_iff x y).0 e in
                  absurd (
                    ne (
                      names.one_name (env.intern ctx.itn str').0 str str' x holds'
                        (rw same (names.interned ctx.itn str'))))
              | inr e ↦ rw e at_x
            ]),
      )

  known_on :
      (ks : List (Bytes × TokenKind)) (str : Bytes) (kind : TokenKind) (ctx : Context)
      → fresh str ks ≡ true
      → Made ctx
      → Knows ctx str kind
      → Knows (install_keywords ks ctx) str kind
  unfolding install_keywords
  known_on [] str kind ctx h made k = k
  known_on ((str', kind') ∷ ks) str kind ctx h made k =
      let (ne, h') = and_true (not (same_bytes_text str str')) (fresh str ks) h in
      known_on ks str kind (install_keyword (str', kind') ctx) h'
        (install_keyword-Made (str', kind') ctx made)
        (still_known str str' kind kind' ctx (different str str' ne) made k)

  install_keywords-KnowsAll :
      (ks : List (Bytes × TokenKind)) (ctx : Context)
      → distinct ks ≡ true
      → Made ctx
      → KnowsAll (install_keywords ks ctx) ks
  unfolding install_keywords
  install_keywords-KnowsAll [] ctx h made = tt
  install_keywords-KnowsAll ((str, kind) ∷ ks) ctx h made =
      let (new, rest) = and_true (fresh str ks) (distinct ks) h in
      let ctx' = install_keyword (str, kind) ctx in
      let made' = install_keyword-Made (str, kind) ctx made in
      (
        known_on ks str kind ctx' new made' (installed str kind ctx made),
        install_keywords-KnowsAll ks ctx' rest made',
      )

  -- Over maps that hold what was put in and an interner that tells names apart, the table of
  -- `context_init` has each keyword of token.def, with its own kind.
  pub context_init-KnowsAll : (arena : TypeStore) → KnowsAll (context_init arena) keywords
  unfolding context_init
  context_init-KnowsAll arena =
      install_keywords-KnowsAll keywords _ refl (maps.made_init TokenKind map_ops_symbol)
