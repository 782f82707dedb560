-- ===== src/Types.antt =====
-- include/type.h, src/type.c: types as objects of the arena, compared through pointers.
pub mod Shape
pub mod Equality
pub mod Globals
pub mod Store
pub mod Ranked
use cact.Prelude.{
  ℕ, zero, suc, ◌*◌, ◌%◌, ◌^◌, Bool, true, false, not, ◌||◌, Option, none, some, List, [], ◌∷◌,
  ◌++◌, ◌==◌, if◌then◌else◌, length, get_elem?, set,
}
use cact.Outcome.{Outcome, fault, out_of_fuel, ok, ◌>>=◌}

-- The value of the enumerator, `TypeKind_VOID` first.
pub data TypeKind : Type 0 where
  void_kind bool_kind int_kind float_kind double_kind array_kind func_kind : TypeKind

abbrev pub typekind_index : TypeKind → ℕ
typekind_index void_kind = 0
typekind_index bool_kind = 1
typekind_index int_kind = 2
typekind_index float_kind = 3
typekind_index double_kind = 4
typekind_index array_kind = 5
typekind_index func_kind = 6

-- A `struct Type *`: `none` is NULL.
abbrev pub TypePtr : Type 0
TypePtr = Option ℕ

-- A `struct Type`. Of the union only the member that was written can be read. A length is the
-- bit pattern of its `int`, and so is a size.
pub data TypeObject : Type 0 where
  primitive : TypeKind → ℕ → ℕ → TypeObject
  array : TypePtr → ℕ → ℕ → ℕ → TypeObject
  func : TypePtr → List TypePtr → ℕ → ℕ → TypeObject

abbrev pub kind_of : TypeObject → TypeKind
kind_of (primitive kind size align) = kind
kind_of (array base len size align) = array_kind
kind_of (func ret params size align) = func_kind

abbrev pub size_of : TypeObject → ℕ
size_of (primitive kind size align) = size
size_of (array base len size align) = size
size_of (func ret params size align) = size

abbrev pub align_of : TypeObject → ℕ
align_of (primitive kind size align) = align
align_of (array base len size align) = align
align_of (func ret params size align) = align

-- The type objects of the arena by address (a freed one is `none`), and the global pointers.
pub record TypeStore : Type 0 where
  pub heap : List (Option TypeObject)
  pub ty_void : TypePtr
  pub ty_bool : TypePtr
  pub ty_int : TypePtr
  pub ty_float : TypePtr
  pub ty_double : TypePtr

-- An arena with no object, and the globals before `types_init`.
abbrev pub no_types : TypeStore
no_types = record {
  heap = [];
  ty_void = none;
  ty_bool = none;
  ty_int = none;
  ty_float = none;
  ty_double = none;
}

-- `==` of two pointers.
abbrev pub ptr_eq : TypePtr → TypePtr → Bool
ptr_eq none none = true
ptr_eq (some a) (some b) = a == b
ptr_eq _ _ = false

abbrev pub is_null : TypePtr → Bool
is_null none = true
is_null (some a) = false

abbrev found : Option (Option TypeObject) → Outcome TypeObject
found (some (some ty)) = ok ty
found _ = fault

-- The object behind a pointer that is dereferenced.
unfoldable pub deref : List (Option TypeObject) → TypePtr → Outcome TypeObject
deref heap none = fault
deref heap (some a) = found (get_elem? heap a)

-- `alloc_type` with the writes that fill the new object: the address, and the arena with it.
abbrev pub alloc : List (Option TypeObject) → TypeObject → TypePtr × List (Option TypeObject)
alloc heap ty = (some (length heap), heap ++ some ty ∷ [])

new_primitive : List (Option TypeObject) → TypeKind → ℕ → ℕ → TypePtr × List (Option TypeObject)
new_primitive heap kind size align = alloc heap (primitive kind size align)

unfoldable pub types_init : TypeStore → TypeStore
unfolding new_primitive
types_init s =
    let (v, h₁) = new_primitive s.heap void_kind 0 0 in
    let (b, h₂) = new_primitive h₁ bool_kind 1 1 in
    let (i, h₃) = new_primitive h₂ int_kind 4 4 in
    let (f, h₄) = new_primitive h₃ float_kind 4 4 in
    let (d, h₅) = new_primitive h₄ double_kind 8 8 in
    record { heap = h₅; ty_void = v; ty_bool = b; ty_int = i; ty_float = f; ty_double = d }

-- `free_type` marks the object, so that a later read through the pointer faults.
free_primitive : List (Option TypeObject) → TypePtr → List (Option TypeObject)
free_primitive heap none = heap
free_primitive heap (some a) = set heap a none

unfoldable pub types_deinit : TypeStore → TypeStore
unfolding free_primitive
types_deinit s =
    let h₁ = free_primitive s.heap s.ty_void in
    let h₂ = free_primitive h₁ s.ty_bool in
    let h₃ = free_primitive h₂ s.ty_int in
    let h₄ = free_primitive h₃ s.ty_float in
    record no_types { heap = free_primitive h₄ s.ty_double }

-- `base->size * len` in 32 bits, wrapping around: C leaves the overflow of an int undefined.
abbrev pub mul_int : ℕ → ℕ → ℕ
mul_int a b = (a * b) % 2 ^ 32

unfoldable pub type_array_of : TypeStore → TypePtr → ℕ → Outcome (TypePtr × TypeStore)
type_array_of s base len = do
  ty ← deref s.heap base
  let (p, heap) = alloc s.heap (array base len (mul_int (size_of ty) len) (align_of ty))
  ok (p, record s { heap = heap })

unfoldable pub type_func_new : TypeStore → TypePtr → TypePtr × TypeStore
type_func_new s ret =
    let (p, heap) = alloc s.heap (func ret [] 8 8) in (p, record s { heap = heap })

-- `vec_push(ty->data.func.params, param)`: the object of a function type is changed in place.
unfoldable pub push_param : TypeStore → TypePtr → TypePtr → Outcome TypeStore
push_param s none param = fault
push_param s (some a) param = do
  ty ← deref s.heap (some a)
  elim ty [
    | func ret params size align ↦
        ok (record s { heap = set s.heap a (some (func ret (params ++ param ∷ []) size align)) })
    | _ ↦ fault
  ]

-- The loop over the parameters, with the comparison of two types; its caller has compared the
-- lengths, and `vec_at` past the end faults.
unfoldable pub params_eq :
    (TypePtr → TypePtr → Outcome Bool) → List TypePtr → List TypePtr → Outcome Bool
params_eq same_type [] _ = ok true
params_eq same_type (a ∷ as_) [] = fault
params_eq same_type (a ∷ as_) (b ∷ bs) = do
  same ← same_type a b
  if same then params_eq same_type as_ bs else ok false

-- The `switch` of `type_eq`, on two objects of one kind.
unfoldable pub objects_eq :
    (TypePtr → TypePtr → Outcome Bool) → TypeObject → TypeObject → Outcome Bool
objects_eq same_type (array base len _ _) (array base' len' _ _) =
    if len == len' then same_type base base' else ok false
objects_eq same_type (func ret params _ _) (func ret' params' _ _) = do
  same ← same_type ret ret'
  if not same
      then ok false
      else if not (length params == length params')
      then ok false
      else params_eq same_type params params'
objects_eq same_type a b =
    let kind = typekind_index (kind_of a) in if kind == 5 || kind == 6 then fault else ok false

-- The recursion takes fuel: one unit for each level of the type.
unfoldable pub type_eq : ℕ → List (Option TypeObject) → TypePtr → TypePtr → Outcome Bool
type_eq zero heap a b = out_of_fuel
type_eq (suc fuel) heap a b =
    if ptr_eq a b then ok true else if is_null a || is_null b then ok false else do
      x ← deref heap a
      y ← deref heap b
      if not (typekind_index (kind_of x) == typekind_index (kind_of y))
          then ok false
          else objects_eq (type_eq fuel heap) x y

unfoldable pub type_is_arithmetic : TypeStore → TypePtr → Bool
type_is_arithmetic s ty = ptr_eq ty s.ty_int || ptr_eq ty s.ty_float || ptr_eq ty s.ty_double
