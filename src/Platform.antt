-- ===== src/Platform.antt =====
-- What the program calls and does not implement: the C library, the fluf library (vendor/fluf, a
-- submodule), and the two places where the C language leaves a value to the platform.
pub mod Laws
use cact.Prelude.{ℕ, Bool, Option, Bytes}

-- std/map.h: `map_ops_t`, the hash and the equality of keys. A key is a `symbol_t`, here its id.
pub record MapOps : Type 0 where
  pub hash : ℕ → ℕ
  pub equals : ℕ → ℕ → Bool

-- std/fs/srcmanager.h: `srcfile_t` and `srcloc_t`.
pub record SrcFile : Type 0 where
  pub content : Bytes
  pub base_offset : ℕ

pub record SrcLoc : Type 0 where
  pub filename : Bytes
  pub line : ℕ
  pub col : ℕ

pub record Platform : Type 1 where
  -- `float`, `double`, and the conversions of stdlib.h; `strtoll buf NULL 0` gives 64 bits
  pub Float : Type 0
  pub Double : Type 0
  pub strtof : Bytes → Float
  pub strtod : Bytes → Double
  pub strtoll : Bytes → ℕ
  -- std/strings/chars.h
  pub char_is_alpha : ℕ → Bool
  pub char_is_digit : ℕ → Bool
  pub char_is_hex : ℕ → Bool
  pub char_is_alphanum : ℕ → Bool
  -- std/strings/intern.h; a `symbol_t` is its id
  pub Interner : Type 0
  pub intern_init : Interner
  pub intern : Interner → Bytes → Interner × ℕ
  pub intern_resolve_cstr : Interner → ℕ → Bytes
  -- std/map.h
  pub Map : Type 0 → Type 0
  pub map_init : (V : Type 0) → MapOps → Map V
  pub map_get : (V : Type 0) → Map V → ℕ → Option V
  pub map_put : (V : Type 0) → Map V → ℕ → V → Map V
  -- std/fs/srcmanager.h
  pub SrcManager : Type 0
  pub srcmanager_init : SrcManager
  pub srcmanager_add : SrcManager → Bytes → Bytes → SrcManager × ℕ
  pub srcmanager_get_file : SrcManager → ℕ → Option SrcFile
  pub srcmanager_lookup : SrcManager → ℕ → Option SrcLoc
  pub srcmanager_get_line_content : SrcManager → ℕ → Bytes
  -- whether a fresh block of the arena holds zeros
  pub zeroed : Bool
  -- the `name` that a union holds after its `as_int`, `as_float` or `as_double` was written
  pub name_of_int : ℕ → ℕ
  pub name_of_float : Float → ℕ
  pub name_of_double : Double → ℕ
