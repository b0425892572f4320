-- ===== src/Router/Search/Kinds.antt =====
-- What an end variable binds, by its kind.
use dce_rust.Base.{
  ℕ, suc, ◌≤◌, ◌<◌, ◌≡◌, refl, ap, none, some, List, [], ◌∷◌, arith, length, drop, leb,
  Option-cases, Bool-cases, inl, find, inr, list_eq, nat_eq,
}
use dce_rust.Text.{Str, ends_with}
use dce_rust.Maps.{map_insert, set_extend}
use dce_rust.Api.{Api}
use dce_rust.Api.Suffixes.{suffix_ord}
use dce_rust.Request.{PathParam, option, required, vector}
use dce_rust.Router.Branch.{ApiBranch, VarType}
use dce_rust.Router.Search.{
  Gathered, part_at, bind_end, extract_suffix, set_last, last_of, flat_suffixes,
}
use dce_rust.Router.Search.Leads.{length-drop}

-- An argument fits a variable of its name: a required one is one part, an optional one may be none,
-- and the others are lists, of one part at least where the variable cannot be empty.
abbrev pub Fits : VarType → Str → PathParam → Type 0
Fits (VarType.required n) name value = (name ≡ n) × (elim value [ required _ ↦ Unit {0} | _ ↦ ⊥ ])
Fits (VarType.optional n) name value = (name ≡ n) × (elim value [ option _ ↦ Unit {0} | _ ↦ ⊥ ])
Fits (VarType.emptable_vector n) name value =
    (name ≡ n) × (elim value [ vector _ ↦ Unit {0} | _ ↦ ⊥ ])
Fits (VarType.vector n) name value =
    (name ≡ n) × (elim value [ vector parts ↦ 1 ≤ length parts | _ ↦ ⊥ ])
Fits VarType.not_var name value = ⊥

length-set_last : (parts : List Str) (p : Str) → length (set_last parts p) ≡ length parts
unfolding set_last
length-set_last [] p = refl
length-set_last (q ∷ []) p = refl
length-set_last (q ∷ r ∷ parts) p = ap suc (length-set_last (r ∷ parts) p)

module _ (boundary : ℕ) (parts : List Str) {Rp : Type 0} where
  -- Cutting a suffix off keeps the number of parts, and what was gathered.
  extract_suffix-keeps :
      (apis : List (Api Rp)) (seen : Gathered)
      → (length (extract_suffix boundary parts apis seen).0 ≡ length parts)
        × ((extract_suffix boundary parts apis seen).1.args ≡ seen.args)
  unfolding extract_suffix
  extract_suffix-keeps apis seen = elim (Option-cases (last_of parts)) [
    | inl gone ↦ rw (extract_suffix, gone) (refl, refl)
    | inr (part, there) ↦
        elim (Option-cases
          (find (λ s. ends_with part (boundary ∷ s.text)) (set_extend [] (flat_suffixes apis)))) [
            | inl unfound ↦ rw (extract_suffix, there) (rw unfound (refl, refl))
            | inr (s, hit) ↦ rw (extract_suffix, there) (rw hit (length-set_last parts _, refl))
          ]
  ]

  pub bind_end-Fits :
      (branch : ApiBranch Rp) (i : ℕ) (seen bound : Gathered)
      → bind_end boundary parts branch i seen ≡ some bound
      → (v : VarType) → branch.var_type ≡ v
      → (name : Str) × (value : PathParam) × (bound.args ≡ map_insert name value seen.args)
        × Fits v name value
  unfolding bind_end
  bind_end-Fits branch i seen bound e (VarType.optional n) is =
      let (size, same) = extract_suffix-keeps branch.apis seen in
      let cut = (extract_suffix boundary parts branch.apis seen).0 in
      elim (Bool-cases (leb (length parts) i)) [
        | inl over ↦ (n, option none, ground arith, (refl, tt))
        | inr fits ↦ elim (Option-cases (part_at cut i)) [
          | inl gone ↦ absurd (ground arith)
          | inr (p, here) ↦ (n, option (some p), ground arith, (refl, tt))
        ]
      ]
  bind_end-Fits branch i seen bound e (VarType.required n) is =
      let (size, same) = extract_suffix-keeps branch.apis seen in
      let cut = (extract_suffix boundary parts branch.apis seen).0 in
      elim (Option-cases (part_at cut i)) [
        | inl gone ↦ absurd (ground arith)
        | inr (p, here) ↦ (n, required p, ground arith, (refl, tt))
      ]
  bind_end-Fits branch i seen bound e (VarType.emptable_vector n) is =
      let (size, same) = extract_suffix-keeps branch.apis seen in
      elim (Bool-cases (leb (length parts) i)) [
        | inl over ↦ (n, vector [], ground arith, (refl, tt))
        | inr fits ↦ (
          n,
          vector (drop i (extract_suffix boundary parts branch.apis seen).0),
          ground arith,
          (refl, tt),
        )
      ]
  bind_end-Fits branch i seen bound e (VarType.vector n) is =
      let (size, same) = extract_suffix-keeps branch.apis seen in
      let cut = (extract_suffix boundary parts branch.apis seen).0 in
      elim (Bool-cases (leb (length parts) i)) [
        | inl over ↦ absurd (ground arith)
        | inr fits ↦
            let short : i < length cut = ground arith in
            (
              n,
              vector (drop i cut),
              ground arith,
              (refl, omega (arith, length-drop cut i (omega arith))),
            )
      ]
  bind_end-Fits branch i seen bound e VarType.not_var is = absurd (ground arith)
