-- ===== src/Token.antt =====
-- include/token.h, include/token.def and src/token.c: token kinds, tokens, the texts of kinds.
pub mod Value
use cact.Prelude.{
  ℕ, ◌≡◌, refl, sym, ap, ◌∙◌, ◌↔◌, Bool, true, List, [], ◌∷◌, ◌==◌, ==_iff, get_or, Bytes, codes,
}

-- One constructor for each line of token.def, in its order.
pub data TokenKind : Type 0 where
  eof error ident lit_int lit_float lit_double kw_const kw_int : TokenKind
  kw_bool kw_float kw_double kw_void kw_if kw_else kw_while kw_break : TokenKind
  kw_continue kw_return kw_true kw_false plus minus star slash : TokenKind
  percent eq neq lt le gt ge l_paren : TokenKind
  r_paren l_brace r_brace l_bracket r_bracket assign semicolon comma : TokenKind
  log_and log_or log_not : TokenKind

-- The value of the enumerator.
abbrev pub tokenkind_index : TokenKind → ℕ
tokenkind_index eof = 0
tokenkind_index error = 1
tokenkind_index ident = 2
tokenkind_index lit_int = 3
tokenkind_index lit_float = 4
tokenkind_index lit_double = 5
tokenkind_index kw_const = 6
tokenkind_index kw_int = 7
tokenkind_index kw_bool = 8
tokenkind_index kw_float = 9
tokenkind_index kw_double = 10
tokenkind_index kw_void = 11
tokenkind_index kw_if = 12
tokenkind_index kw_else = 13
tokenkind_index kw_while = 14
tokenkind_index kw_break = 15
tokenkind_index kw_continue = 16
tokenkind_index kw_return = 17
tokenkind_index kw_true = 18
tokenkind_index kw_false = 19
tokenkind_index plus = 20
tokenkind_index minus = 21
tokenkind_index star = 22
tokenkind_index slash = 23
tokenkind_index percent = 24
tokenkind_index eq = 25
tokenkind_index neq = 26
tokenkind_index lt = 27
tokenkind_index le = 28
tokenkind_index gt = 29
tokenkind_index ge = 30
tokenkind_index l_paren = 31
tokenkind_index r_paren = 32
tokenkind_index l_brace = 33
tokenkind_index r_brace = 34
tokenkind_index l_bracket = 35
tokenkind_index r_bracket = 36
tokenkind_index assign = 37
tokenkind_index semicolon = 38
tokenkind_index comma = 39
tokenkind_index log_and = 40
tokenkind_index log_or = 41
tokenkind_index log_not = 42

-- `==` of two enumerators.
abbrev pub same_kind : TokenKind → TokenKind → Bool
same_kind a b = tokenkind_index a == tokenkind_index b

-- `KW(ID, TEXT)` and `PUNCT(ID, TEXT)` give the text, `TOK(ID)` a name.
unfoldable pub tokenkind_to_cstr : TokenKind → Bytes
tokenkind_to_cstr eof = codes "TOKEN_EOF"
tokenkind_to_cstr error = codes "TOKEN_ERROR"
tokenkind_to_cstr ident = codes "TOKEN_IDENT"
tokenkind_to_cstr lit_int = codes "TOKEN_LIT_INT"
tokenkind_to_cstr lit_float = codes "TOKEN_LIT_FLOAT"
tokenkind_to_cstr lit_double = codes "TOKEN_LIT_DOUBLE"
tokenkind_to_cstr kw_const = codes "const"
tokenkind_to_cstr kw_int = codes "int"
tokenkind_to_cstr kw_bool = codes "bool"
tokenkind_to_cstr kw_float = codes "float"
tokenkind_to_cstr kw_double = codes "double"
tokenkind_to_cstr kw_void = codes "void"
tokenkind_to_cstr kw_if = codes "if"
tokenkind_to_cstr kw_else = codes "else"
tokenkind_to_cstr kw_while = codes "while"
tokenkind_to_cstr kw_break = codes "break"
tokenkind_to_cstr kw_continue = codes "continue"
tokenkind_to_cstr kw_return = codes "return"
tokenkind_to_cstr kw_true = codes "true"
tokenkind_to_cstr kw_false = codes "false"
tokenkind_to_cstr plus = codes "+"
tokenkind_to_cstr minus = codes "-"
tokenkind_to_cstr star = codes "*"
tokenkind_to_cstr slash = codes "/"
tokenkind_to_cstr percent = codes "%"
tokenkind_to_cstr eq = codes "=="
tokenkind_to_cstr neq = codes "!="
tokenkind_to_cstr lt = codes "<"
tokenkind_to_cstr le = codes "<="
tokenkind_to_cstr gt = codes ">"
tokenkind_to_cstr ge = codes ">="
tokenkind_to_cstr l_paren = codes "("
tokenkind_to_cstr r_paren = codes ")"
tokenkind_to_cstr l_brace = codes "{"
tokenkind_to_cstr r_brace = codes "}"
tokenkind_to_cstr l_bracket = codes "["
tokenkind_to_cstr r_bracket = codes "]"
tokenkind_to_cstr assign = codes "="
tokenkind_to_cstr semicolon = codes ";"
tokenkind_to_cstr comma = codes ","
tokenkind_to_cstr log_and = codes "&&"
tokenkind_to_cstr log_or = codes "||"
tokenkind_to_cstr log_not = codes "!"

-- The lines `KW(ID, TEXT)` of token.def, in their order.
abbrev pub keywords : List (Bytes × TokenKind)
keywords =
    (codes "const", kw_const)
    ∷ (codes "int", kw_int)
    ∷ (codes "bool", kw_bool)
    ∷ (codes "float", kw_float)
    ∷ (codes "double", kw_double)
    ∷ (codes "void", kw_void)
    ∷ (codes "if", kw_if)
    ∷ (codes "else", kw_else)
    ∷ (codes "while", kw_while)
    ∷ (codes "break", kw_break)
    ∷ (codes "continue", kw_continue)
    ∷ (codes "return", kw_return)
    ∷ (codes "true", kw_true)
    ∷ (codes "false", kw_false)
    ∷ []

abbrev all_kinds : List TokenKind
all_kinds =
    eof ∷ error ∷ ident ∷ lit_int ∷ lit_float ∷ lit_double ∷ kw_const ∷ kw_int ∷ kw_bool ∷ kw_float
    ∷ kw_double ∷ kw_void ∷ kw_if ∷ kw_else ∷ kw_while ∷ kw_break ∷ kw_continue ∷ kw_return
    ∷ kw_true ∷ kw_false ∷ plus ∷ minus ∷ star ∷ slash ∷ percent ∷ eq ∷ neq ∷ lt ∷ le ∷ gt ∷ ge
    ∷ l_paren ∷ r_paren ∷ l_brace ∷ r_brace ∷ l_bracket ∷ r_bracket ∷ assign ∷ semicolon ∷ comma
    ∷ log_and ∷ log_or ∷ log_not ∷ []

abbrev kind_at : ℕ → TokenKind
kind_at i = get_or all_kinds i eof

kind_at-index : (k : TokenKind) → kind_at (tokenkind_index k) ≡ k
kind_at-index eof = refl
kind_at-index error = refl
kind_at-index ident = refl
kind_at-index lit_int = refl
kind_at-index lit_float = refl
kind_at-index lit_double = refl
kind_at-index kw_const = refl
kind_at-index kw_int = refl
kind_at-index kw_bool = refl
kind_at-index kw_float = refl
kind_at-index kw_double = refl
kind_at-index kw_void = refl
kind_at-index kw_if = refl
kind_at-index kw_else = refl
kind_at-index kw_while = refl
kind_at-index kw_break = refl
kind_at-index kw_continue = refl
kind_at-index kw_return = refl
kind_at-index kw_true = refl
kind_at-index kw_false = refl
kind_at-index plus = refl
kind_at-index minus = refl
kind_at-index star = refl
kind_at-index slash = refl
kind_at-index percent = refl
kind_at-index eq = refl
kind_at-index neq = refl
kind_at-index lt = refl
kind_at-index le = refl
kind_at-index gt = refl
kind_at-index ge = refl
kind_at-index l_paren = refl
kind_at-index r_paren = refl
kind_at-index l_brace = refl
kind_at-index r_brace = refl
kind_at-index l_bracket = refl
kind_at-index r_bracket = refl
kind_at-index assign = refl
kind_at-index semicolon = refl
kind_at-index comma = refl
kind_at-index log_and = refl
kind_at-index log_or = refl
kind_at-index log_not = refl

-- Two kinds with one value are one kind.
pub same_kind_iff : (a b : TokenKind) → (same_kind a b ≡ true) ↔ (a ≡ b)
same_kind_iff a b = (
  λ h. sym (kind_at-index a) ∙ ap kind_at ((==_iff _ _).0 h) ∙ kind_at-index b,
  λ e. (==_iff _ _).1 (ap tokenkind_index e),
)
