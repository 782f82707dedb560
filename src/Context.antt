-- ===== src/Context.antt =====
-- include/context.h, src/context.c: the compiler context, the keyword map and error reporting.
pub mod Errors
pub mod Keywords
use cact.Prelude.{
  ℕ, ◌-◌, ◌*◌, ◌%◌, ◌^◌, String, Bool, true, false, Option, none, some, List, [], ◌∷◌, ◌++◌, ltb,
  ◌==◌, if◌then◌else◌, length, Bytes,
}
use cact.Platform.{MapOps, SrcLoc, Platform}
use cact.Token.{TokenKind, keywords}
use cact.Types.{TypeStore, types_init, types_deinit}

-- The functions of `MAP_OPS_SYMBOL` and of sema.c's `SEMA_MAP_OPS`, which are the same; the hash
-- is a `u64`. A key is the id of a symbol.
unfoldable pub sym_hash : ℕ → ℕ
sym_hash id = (id * 2654435761) % 2 ^ 64

unfoldable pub sym_eq : ℕ → ℕ → Bool
sym_eq lhs rhs = lhs == rhs

abbrev pub map_ops_symbol : MapOps
map_ops_symbol = record { hash = sym_hash; equals = sym_eq }

-- The text that `ctx_error` formats: a literal, or the literal with the character put in for `%c`.
pub data Message : Type 0 where
  text : String → Message
  unexpected_character : ℕ → Message

-- What one call of `ctx_error` writes to stderr: the location if there is one, the message, and
-- the source line with the column of the caret if that line has a character.
pub record Diagnostic : Type 0 where
  pub location : Option SrcLoc
  pub message : Message
  pub excerpt : Option (Bytes × ℕ)

module _ ⦃env : Platform⦄ where
  -- `struct Context`, with what was written to stderr. The arena holds the types.
  pub record Context : Type 0 where
    pub types : TypeStore
    pub mgr : env.SrcManager
    pub itn : env.Interner
    pub kw_map : env.Map TokenKind
    pub had_error : Bool
    pub panic_mode : Bool
    pub stderr : List Diagnostic

  -- One `KW(ID, STR)` of `context_init`.
  unfoldable pub install_keyword : Bytes × TokenKind → Context → Context
  install_keyword (str, kind) ctx =
      let (itn, symbol) = env.intern ctx.itn str in
      record ctx { itn = itn; kw_map = env.map_put TokenKind ctx.kw_map symbol kind }

  unfoldable pub install_keywords : List (Bytes × TokenKind) → Context → Context
  install_keywords [] ctx = ctx
  install_keywords (k ∷ ks) ctx = install_keywords ks (install_keyword k ctx)

  -- The initialisations that can panic for want of memory do not fail here.
  unfoldable pub context_init : TypeStore → Context
  context_init arena = install_keywords keywords (record {
    types = types_init arena;
    mgr = env.srcmanager_init;
    itn = env.intern_init;
    kw_map = env.map_init TokenKind map_ops_symbol;
    had_error = false;
    panic_mode = false;
    stderr = [];
  })

  -- The part of `context_deinit` that is code of the program; fluf's own calls release memory.
  unfoldable pub context_deinit : Context → Context
  context_deinit ctx = record ctx { types = types_deinit ctx.types }

  -- `tok ? srcmanager_lookup(...) : none`; the token is given by the start of its span.
  locate : Context → Option ℕ → Option SrcLoc
  locate ctx none = none
  locate ctx (some start) = env.srcmanager_lookup ctx.mgr start

  excerpt_at : Context → Option ℕ → Option SrcLoc → Option (Bytes × ℕ)
  excerpt_at ctx (some start) (some loc) =
      let line = env.srcmanager_get_line_content ctx.mgr start in
      if ltb 0 (length line) then some (line, loc.col - 1) else none
  excerpt_at _ _ _ = none

  unfoldable pub ctx_error : Context → Option ℕ → Message → Context
  unfolding locate excerpt_at
  ctx_error ctx tok msg = if ctx.panic_mode then ctx else record ctx {
    panic_mode = true;
    had_error = true;
    stderr =
        ctx.stderr
        ++ (record {
          location = locate ctx tok;
          message = msg;
          excerpt = excerpt_at ctx tok (locate ctx tok);
        }
            ∷ []);
  }

-- A check that failed reports.
abbrev pub report_if : ⦃env : Platform⦄ → Bool → Context → Option ℕ → String → Context
report_if bad ctx tok msg = if bad then ctx_error ctx tok (text msg) else ctx
