-- ===== src/Ascii.antt =====
-- A concrete platform, for the tests and the witnesses: ASCII classes, association lists for maps
-- and interned names, one source file that starts at offset 0.
pub mod Names
use cact.Prelude.{
  ℕ, ◌+◌, ◌-◌, ◌*◌, String, Bool, true, ◌&&◌, ◌||◌, Option, none, some, List, [], ◌∷◌, ◌++◌, ltb,
  leb, ◌==◌, if◌then◌else◌, length, get_or, Bytes, codes,
}
use cact.Driver.{same_text, Exit, main}
use cact.Outcome.{Outcome}
use cact.Platform.{MapOps, Platform}
use cact.Token.{eof}
use cact.Token.Value.{no_value, Token}

abbrev within : ℕ → ℕ → ℕ → Bool
within lo hi c = leb lo c && leb c hi

abbrev pub ascii_digit : ℕ → Bool
ascii_digit c = within b'0' b'9' c

abbrev pub ascii_alpha : ℕ → Bool
ascii_alpha c = within b'a' b'z' c || within b'A' b'Z' c

abbrev ascii_hex : ℕ → Bool
ascii_hex c = ascii_digit c || within b'a' b'f' c || within b'A' b'F' c

abbrev pub ascii_alphanum : ℕ → Bool
ascii_alphanum c = ascii_alpha c || ascii_digit c

-- The digits of a number in a base, up to the first byte that is none.
abbrev digit_value : ℕ → ℕ
digit_value c =
    if ascii_digit c
    then c - b'0'
    else if within b'a' b'f' c
    then c - b'a' + 10
    else if within b'A' b'F' c
    then c - b'A' + 10
    else 99

abbrev to_number : ℕ → ℕ → Bytes → ℕ
to_number base acc [] = acc
to_number base acc (c ∷ cs) =
    if ltb (digit_value c) base then to_number base (acc * base + digit_value c) cs else acc

abbrev to_int : Bytes → ℕ
to_int (c ∷ x ∷ cs) =
    if c == b'0'
    then (if x == b'x' || x == b'X' then to_number 16 0 cs else to_number 8 0 (x ∷ cs))
    else to_number 10 0 (c ∷ x ∷ cs)
to_int cs = to_number 10 0 cs

-- The id of a name is its place in the list.
abbrev pub position : ℕ → Bytes → List Bytes → Option ℕ
position i name [] = none
position i name (x ∷ xs) = if same_text x name then some i else position (i + 1) name xs

abbrev ascii_intern : List Bytes → Bytes → List Bytes × ℕ
ascii_intern names name = elim (position 0 name names) [
  | some i ↦ (names, i)
  | none ↦ (names ++ name ∷ [], length names)
]

abbrev AsciiMap : Type 0 → Type 0
AsciiMap V = MapOps × List (ℕ × V)

abbrev find_key : (V : Type 0) → (ℕ → Bool) → List (ℕ × V) → Option V
find_key V test [] = none
find_key V test ((k, v) ∷ m) = if test k then some v else find_key V test m

abbrev pub ascii_with : Bool → Platform
ascii_with zeroed = record {
  Float = Bytes;
  Double = Bytes;
  strtof = λ s. s;
  strtod = λ s. s;
  strtoll = to_int;
  char_is_alpha = ascii_alpha;
  char_is_digit = ascii_digit;
  char_is_hex = ascii_hex;
  char_is_alphanum = ascii_alphanum;
  Interner = List Bytes;
  intern_init = [];
  intern = ascii_intern;
  intern_resolve_cstr = λ names i. get_or names i [];
  Map = AsciiMap;
  map_init = λ V ops. (ops, []);
  map_get = λ V m k. find_key V (λ j. m.0.equals k j) m.1;
  map_put = λ V m k v. (m.0, (k, v) ∷ m.1);
  SrcManager = List (Bytes × Bytes);
  srcmanager_init = [];
  srcmanager_add = λ m path content. ((path, content) ∷ m, 0);
  srcmanager_get_file = λ m i. elim m [
    | [] ↦ none
    | (path, content) ∷ _ ↦ some (record { content = content; base_offset = 0 })
  ];
  srcmanager_lookup = λ m i. none;
  srcmanager_get_line_content = λ m i. [];
  zeroed = zeroed;
  name_of_int = λ i. i;
  name_of_float = λ x. 0;
  name_of_double = λ x. 0;
}

instance abbrev pub ascii : Platform
ascii = ascii_with true

abbrev pub stale : Token
stale = record { kind = eof; span_start = 0; span_end = 0; value = no_value }

abbrev pub run_source : String → Outcome Exit
run_source source = main (λ _. some (codes source)) stale (codes "a.cact" ∷ [])
