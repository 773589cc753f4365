-- ===== src/Pass/Selection.antt =====
-- Which functions the directory loop of SymbolicEncapsulationPass.cpp hands on.
use ephippion.Prelude.{
  ◌≡◌, ◌↔◌, refl, Bool, true, false, not, ◌&&◌, ◌||◌, ◌⊎◌, inl, inr, List, [], ◌∷◌, Text, text_eq,
  text_eq_iff, Bool-cases, arith,
}
use ephippion.Options.{Options}
use ephippion.Llvm.{Function}
use ephippion.Pass.{World, is_in, is_listed, has_white_list, white_list, work_list}

-- Some element of the list meets `P`.
abbrev pub Any {ℓ} : {A : Type ℓ} → (A → Type 0) → List A → Type 0
Any P [] = ⊥
Any P (x ∷ xs) = P x ⊎ Any P xs

||-cases : (a b : Bool) → (a || b) ≡ true → (a ≡ true) ⊎ (b ≡ true)
||-cases true b h = inl refl
||-cases false b h = inr h

||-right : (a b : Bool) → b ≡ true → (a || b) ≡ true
||-right true b h = refl
||-right false b h = h

is_in_sound : (cs : List Text) (e : Text) → is_in cs e ≡ true → Any (λ c. c ≡ e) cs
unfolding is_in
is_in_sound [] e h = cc
is_in_sound (c ∷ cs) e h = elim (||-cases (text_eq c e) (is_in cs e) h) [
  | inl same ↦ inl ((text_eq_iff c e).0 same)
  | inr rest ↦ inr (is_in_sound cs e rest)
]

is_in_complete : (cs : List Text) (e : Text) → Any (λ c. c ≡ e) cs → is_in cs e ≡ true
unfolding is_in
is_in_complete [] e h = absurd h
is_in_complete (c ∷ cs) e (inl same) = rw ((text_eq_iff c e).1 same) refl
is_in_complete (c ∷ cs) e (inr rest) = ||-right _ _ (is_in_complete cs e rest)

module _ {V : Type 0} (world : World V) (options : Options) where
  abbrev pub IsAllowed : Function → Type 0
  IsAllowed g =
      (has_white_list world options ≡ false) ⊎ Any (λ c. c ≡ g.name) (white_list world options)

  -- `g` has the name of `f`, has a body, and is on the white list if there is one.
  abbrev pub IsCandidate : Function → Function → Type 0
  IsCandidate f g = (g.name ≡ f.name) × (g.is_declaration ≡ false) × IsAllowed g

  left_out : Function → Bool
  left_out g = has_white_list world options && not (is_in (white_list world options) g.name)

  not_left_out-IsAllowed : (g : Function) → left_out g ≡ false → IsAllowed g
  unfolding left_out
  not_left_out-IsAllowed g h = elim (Bool-cases (has_white_list world options)) [
    | inl given ↦ inr (is_in_sound _ _ (ground arith))
    | inr absent ↦ inl absent
  ]

  IsAllowed-not_left_out : (g : Function) → IsAllowed g → left_out g ≡ false
  unfolding left_out
  IsAllowed-not_left_out g (inl absent) = rw absent refl
  IsAllowed-not_left_out g (inr listed) = rw (is_in_complete _ _ listed) (ground arith)

  work_list_sound :
      (f : Function) (gs : List Function)
      → is_listed (work_list world options gs) f ≡ true
      → Any (IsCandidate f) gs
  unfolding is_listed work_list left_out
  work_list_sound f [] h = cc
  work_list_sound f (g ∷ gs) h = elim (Bool-cases g.is_declaration) [
    | inl decl ↦ inr (work_list_sound f gs (rw decl at h))
    | inr body ↦ elim (Bool-cases (left_out g)) [
      | inl out ↦ inr (work_list_sound f gs (rw (body, out) at h))
      | inr in_it ↦ elim (||-cases (text_eq g.name f.name) _ (rw (body, in_it) at h)) [
        | inl same ↦ inl ((text_eq_iff g.name f.name).0 same, body, not_left_out-IsAllowed g in_it)
        | inr rest ↦ inr (work_list_sound f gs rest)
      ]
    ]
  ]

  work_list_complete :
      (f : Function) (gs : List Function)
      → Any (IsCandidate f) gs
      → is_listed (work_list world options gs) f ≡ true
  unfolding is_listed work_list left_out
  work_list_complete f [] h = absurd h
  work_list_complete f (g ∷ gs) (inl (same, body, allowed)) =
      rw (body, IsAllowed-not_left_out g allowed, (text_eq_iff g.name f.name).1 same) refl
  work_list_complete f (g ∷ gs) (inr rest) = elim (Bool-cases g.is_declaration) [
    | inl decl ↦ rw decl (work_list_complete f gs rest)
    | inr body ↦ elim (Bool-cases (left_out g)) [
      | inl out ↦ rw (body, out) (work_list_complete f gs rest)
      | inr in_it ↦ rw (body, in_it) (||-right _ _ (work_list_complete f gs rest))
    ]
  ]

  -- The search of the pass in its list of work finds a function exactly if the module has one of that
  -- name that has a body and, where a white list is given, is named by it.
  pub work_list_iff :
      (gs : List Function) (f : Function)
      → (is_listed (work_list world options gs) f ≡ true) ↔ Any (IsCandidate f) gs
  work_list_iff gs f = (work_list_sound f gs, work_list_complete f gs)
