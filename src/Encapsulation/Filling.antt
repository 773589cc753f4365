-- ===== src/Encapsulation/Filling.antt =====
-- The loop of `encapsulateImpl` of SymbolicEncapsulation.cpp that fills in missing descriptions.
use ephippion.Prelude.{
  ℕ, zero, suc, ◌+◌, ◌-◌, ◌≤◌, ◌≡◌, refl, ◌∙◌, List, [], ◌∷◌, ◌++◌, append_assoc, append-nil,
  length, length-append, replicate, Bool-cases, inl, inr, ltb, ltb→lt, arith,
}
use ephippion.Direction.{ArgSpec}
use ephippion.Encapsulation.Harness.{fill_specs, default_spec}

missing_none : (n : ℕ) (specs : List ArgSpec) → n ≡ 0 → specs ≡ specs ++ replicate n default_spec
missing_none n specs e = rw (e, append-nil specs) refl

missing_one :
    (n k : ℕ) (specs : List ArgSpec)
    → n ≡ suc k
    → (specs ++ default_spec ∷ []) ++ replicate k default_spec ≡ specs ++ replicate n default_spec
missing_one n k specs e = rw e (append_assoc specs (default_spec ∷ []) (replicate k default_spec))

-- With as many rounds as descriptions are missing, the loop ends with the given descriptions followed
-- by a default one, an input that does not depend on the iterator, for each missing one; descriptions
-- beyond the number of parameters are kept.
pub fill_specs_lem :
    (rounds num_params : ℕ) (specs : List ArgSpec)
    → num_params ≤ rounds + length specs
    → fill_specs rounds num_params specs
      ≡ specs ++ replicate (num_params - length specs) default_spec
unfolding fill_specs
fill_specs_lem zero num_params specs enough = missing_none _ specs (omega arith)
fill_specs_lem (suc rounds) num_params specs enough =
    elim (Bool-cases (ltb (length specs) num_params)) [
      | inl fewer ↦
          let longer : length (specs ++ default_spec ∷ []) ≡ suc (length specs) =
            length-append specs (default_spec ∷ []) ∙ omega arith in
          rw fewer (
            fill_specs_lem rounds num_params (specs ++ default_spec ∷ []) (omega (arith, longer))
            ∙ missing_one _ _ specs (omega (arith, longer, ltb→lt (length specs) num_params fewer)))
      | inr filled ↦ rw filled (missing_none _ specs ground arith)
    ]
