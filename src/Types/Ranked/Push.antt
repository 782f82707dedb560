-- ===== src/Types/Ranked/Push.antt =====
-- A parameter that is pushed to a function type leaves the arena without cycles.
use cact.Prelude.{
  ℕ, ◌≡◌, refl, sym, ◌≢◌, inl, inr, Option, none, some, List, [], ◌∷◌, ◌++◌, ◌==◌, ==_iff,
  Bool-cases, length, get_elem?, set, get_elem?-lt, length-set, get_elem?-set_self,
  get_elem?-set_ne,
}
use cact.Outcome.{Outcome, fault, out_of_fuel, ok, ◌>>=◌}
use cact.Types.{TypePtr, TypeObject, primitive, array, func, TypeStore, deref, push_param}
use cact.Types.Ranked.{NotFunc, Plain, PlainAll, Fine, Ranked, deref-Halts, object_at}
use cact.Types.Ranked.Kept.{PlainIn, WellFormed, Follows}
use cact.Types.Shape.{IsReady}

-- The arena after the push to the function at `a`.
abbrev pushed :
    List (Option TypeObject)
    → ℕ
    → TypePtr
    → List TypePtr
    → ℕ
    → ℕ
    → TypePtr
    → List (Option TypeObject)
pushed heap a ret params size align param =
    set heap a (some (func ret (params ++ param ∷ []) size align))

module _ (heap : List (Option TypeObject)) (a : ℕ) (ret : TypePtr) (params : List TypePtr)
    (size align : ℕ) (param : TypePtr)
    (here : get_elem? heap a ≡ some (some (func ret params size align))) where
  abbrev after : List (Option TypeObject)
  after = pushed heap a ret params size align param

  pushed_ne : (b : ℕ) → a ≢ b → get_elem? after b ≡ get_elem? heap b
  pushed_ne b n = get_elem?-set_ne heap a b (some (func ret (params ++ param ∷ []) size align)) n

  length-pushed : length after ≡ length heap
  length-pushed = length-set heap a (some (func ret (params ++ param ∷ []) size align))

  -- What is no function is not the object that changes.
  elsewhere : (b : ℕ) → NotFunc (get_elem? heap b) → a ≢ b
  elsewhere b nf e = rw (sym e, here) at nf

  Plain-pushed : (n : ℕ) (p : TypePtr) → Plain heap n p → Plain after n p
  Plain-pushed n none h = tt
  Plain-pushed n (some b) (lt', nf) = (lt', rw (pushed_ne b (elsewhere b nf)) nf)

  PlainAll-pushed : (n : ℕ) (ps : List TypePtr) → PlainAll heap n ps → PlainAll after n ps
  PlainAll-pushed n [] h = tt
  PlainAll-pushed n (p ∷ ps) (h, hs) = (Plain-pushed n p h, PlainAll-pushed n ps hs)

  PlainAll-concat :
      (n : ℕ) (ps : List TypePtr)
      → PlainAll heap n ps
      → Plain heap n param
      → PlainAll heap n (ps ++ param ∷ [])
  PlainAll-concat n [] h k = (k, tt)
  PlainAll-concat n (p ∷ ps) (h, hs) k = (h, PlainAll-concat n ps hs k)

  Fine-pushed : (b : ℕ) (x : Option (Option TypeObject)) → Fine heap b x → Fine after b x
  Fine-pushed b (some (some (array base _ _ _))) h = Plain-pushed b base h
  Fine-pushed b (some (some (func r ps _ _))) (h, hs) =
      rw length-pushed (Plain-pushed (length heap) r h, PlainAll-pushed (length heap) ps hs)
  Fine-pushed b (some (some (primitive _ _ _))) h = tt
  Fine-pushed b (some none) h = tt
  Fine-pushed b none h = tt

  Ranked-pushed : Ranked heap → Plain heap (length heap) param → Ranked after
  Ranked-pushed ranked k b = elim (Bool-cases (a == b)) [
    | inl e ↦
        let at : a ≡ b = (==_iff a b).0 e in
        let (h, hs) : Fine heap a (some (some (func ret params size align))) =
          rw here at (ranked a) in
        let new : Fine heap a (some (some (func ret (params ++ param ∷ []) size align))) =
          (h, PlainAll-concat (length heap) params hs k) in
        rw
          (
            ← at,
            get_elem?-set_self heap a (some (func ret (params ++ param ∷ []) size align))
                (get_elem?-lt heap a here),
          )
          (Fine-pushed a (some (some (func ret (params ++ param ∷ []) size align))) new)
    | inr e ↦
        rw (pushed_ne b (λ h. cc (e, (==_iff a b).1 h)))
          (Fine-pushed b (get_elem? heap b) (ranked b))
  ]

  deref-pushed :
      (p : TypePtr) {o : TypeObject}
      → deref heap p ≡ ok o
      → NotFunc (some (some o))
      → deref after p ≡ ok o
  unfolding deref
  deref-pushed none e nf = cc
  deref-pushed (some b) e nf =
      let g = object_at heap b e in rw (pushed_ne b (elsewhere b (rw g nf))) e

  pushed-IsReady : (s : TypeStore) → s.heap ≡ heap → IsReady s → IsReady (record s { heap = after })
  pushed-IsReady s same r = record {
    void_at = deref-pushed s.ty_void (rw same at r.void_at) tt;
    bool_at = deref-pushed s.ty_bool (rw same at r.bool_at) tt;
    int_at = deref-pushed s.ty_int (rw same at r.int_at) tt;
    float_at = deref-pushed s.ty_float (rw same at r.float_at) tt;
    double_at = deref-pushed s.ty_double (rw same at r.double_at) tt;
  }

  pushed-Follows :
      (s : TypeStore)
      → s.heap ≡ heap
      → WellFormed s
      → PlainIn s param
      → Follows s (record s { heap = after })
  pushed-Follows s same w k = record {
    well_formed = record {
      ready = pushed-IsReady s same w.ready;
      ranked = Ranked-pushed (rw same at w.ranked) (rw same at k);
    };
    still_plain = λ p h. rw length-pushed (Plain-pushed (length heap) p (rw same at h));
  }

-- What `push_param` gives, if it gives anything.
abbrev pub Pushed : TypeStore → Outcome TypeStore → Type 0
Pushed s (ok s') = Follows s s'
Pushed s fault = Unit
Pushed s out_of_fuel = ⊥

-- On a well-formed store, the push of a parameter that is NULL or a pointer to what is no function,
-- to whatever the first pointer leads to, gives a fault or a well-formed store in which what was no
-- function still is none.
pub push_param-Pushed :
    (s : TypeStore) (p param : TypePtr)
    → WellFormed s
    → PlainIn s param
    → Pushed s (push_param s p param)
unfolding push_param
push_param-Pushed s none param w k = tt
push_param-Pushed s (some a) param w k = go (deref s.heap (some a)) refl
  where
    go :
        (o : Outcome TypeObject)
        → deref s.heap (some a) ≡ o
        → Pushed s (
            o >>= λ ty. elim ty [
              | func ret params size align ↦ ok (record s {
                heap = set s.heap a (some (func ret (params ++ param ∷ []) size align));
              })
              | _ ↦ fault
            ])
    go (ok (func ret params size align)) e =
        pushed-Follows s.heap a ret params size align param (object_at s.heap a e) s refl w k
    go (ok (primitive _ _ _)) e = tt
    go (ok (array _ _ _ _)) e = tt
    go fault e = tt
    go out_of_fuel e = absurd (rw e at (deref-Halts s.heap (some a)))
