-- ===== src/Platform/Laws.antt =====
-- What the program relies on in the code that it calls, as hypotheses of theorems.
use cact.Prelude.{
  ℕ, ◌≡◌, ◌↔◌, Bool, true, false, ◌&&◌, ◌||◌, none, some, leb, ◌==◌, if◌then◌else◌, Bytes,
}
use cact.Platform.{MapOps, Platform}

-- The operations that a map is made with: equality of keys is an equality, and equal keys hash
-- alike.
pub record IsLawful (ops : MapOps) : Type 0 where
  pub equals_iff : (j k : ℕ) → (ops.equals j k ≡ true) ↔ (j ≡ k)
  pub hash_equals : (j k : ℕ) → ops.equals j k ≡ true → ops.hash j ≡ ops.hash k

-- fluf's maps hold what was put in, over lawful operations. `Made ops m`: the map `m` was made
-- with `ops`.
pub record MapLaws (env : Platform) : Type 1 where
  pub Made : (V : Type 0) → MapOps → env.Map V → Type 0
  pub made_init : (V : Type 0) (ops : MapOps) → Made V ops (env.map_init V ops)
  pub made_put :
      (V : Type 0) (ops : MapOps) (m : env.Map V) (k : ℕ) (v : V)
      → Made V ops m
      → Made V ops (env.map_put V m k v)
  pub get-init : (V : Type 0) (ops : MapOps) (k : ℕ) → env.map_get V (env.map_init V ops) k ≡ none
  pub get-put :
      (V : Type 0) (ops : MapOps) (m : env.Map V) (j k : ℕ) (v : V)
      → IsLawful ops
      → Made V ops m
      → env.map_get V (env.map_put V m k v) j ≡ (if j == k then some v else env.map_get V m j)

-- std/strings/chars.h: letters count as alphanumeric, and the byte 0 is in no class.
pub record CharLaws (env : Platform) : Type 0 where
  pub alpha_alphanum : (c : ℕ) → env.char_is_alpha c ≡ true → env.char_is_alphanum c ≡ true
  pub digit_end : env.char_is_digit 0 ≡ false
  pub hex_end : env.char_is_hex 0 ≡ false
  pub alphanum_end : env.char_is_alphanum 0 ≡ false

-- The same header: the letters and the decimal digits are those of ASCII.
abbrev between : ℕ → ℕ → ℕ → Bool
between lo hi c = leb lo c && leb c hi

abbrev pub is_letter : ℕ → Bool
is_letter c = between b'a' b'z' c || between b'A' b'Z' c

abbrev pub is_decimal : ℕ → Bool
is_decimal c = between b'0' b'9' c

pub record AsciiLaws (env : Platform) : Type 0 where
  pub alpha_letter : (c : ℕ) → env.char_is_alpha c ≡ is_letter c
  pub digit_decimal : (c : ℕ) → env.char_is_digit c ≡ is_decimal c
  pub alphanum_either : (c : ℕ) → env.char_is_alphanum c ≡ (is_letter c || is_decimal c)

-- std/strings/intern.h: a name keeps its id, and two names have two ids. `Holds itn name x`: the
-- interner knows the name, with the id `x`.
pub record InternLaws (env : Platform) : Type 1 where
  pub Holds : env.Interner → Bytes → ℕ → Type 0
  pub interned :
      (itn : env.Interner) (name : Bytes)
      → Holds (env.intern itn name).0 name (env.intern itn name).1
  pub kept :
      (itn : env.Interner) (name other : Bytes) (x : ℕ)
      → Holds itn name x
      → Holds (env.intern itn other).0 name x
  pub same_id :
      (itn : env.Interner) (name : Bytes) (x : ℕ) → Holds itn name x → (env.intern itn name).1 ≡ x
  pub one_name : (itn : env.Interner) (a b : Bytes) (x : ℕ) → Holds itn a x → Holds itn b x → a ≡ b
