-- ===== src/Genproto/Root.antt =====
-- cmd/genproto/main.go: repoRoot. A directory is its segments, the innermost first; the empty list is
-- the root, which is its own parent.
use microservice_diagnosis.Prelude.{
  String, Bool, true, false, Option, none, some, List, [], ◌∷◌, ◌++◌, ◌≡◌, refl, sym, subst, ap,
  ◌∙◌, arith, Bool-cases, inl, inr, if◌then◌else◌,
}

-- The loop of repoRoot; `has_mod` says where os.Stat finds go.mod.
unfoldable pub repo_root : (List String → Bool) → List String → Option (List String)
repo_root has_mod [] = if has_mod [] then some [] else none
repo_root has_mod (d ∷ ds) =
    let above = repo_root has_mod ds in if has_mod (d ∷ ds) then some (d ∷ ds) else above

-- No directory from `ds ++ dir` up to the one below `dir` has a go.mod.
abbrev AllWithout : (List String → Bool) → List String → List String → Type 0
AllWithout has_mod [] dir = Unit
AllWithout has_mod (d ∷ ds) dir = (has_mod (d ∷ ds ++ dir) ≡ false) × AllWithout has_mod ds dir

-- The root is the nearest directory with a go.mod.
abbrev pub IsNearest : (List String → Bool) → List String → List String → Type 0
IsNearest has_mod dir root =
    (has_mod root ≡ true)
    × ((inner : List String) × (dir ≡ inner ++ root) × AllWithout has_mod inner root)

further :
    (has_mod : List String → Bool) (d : String) (ds root : List String)
    → has_mod (d ∷ ds) ≡ false
    → IsNearest has_mod ds root
    → IsNearest has_mod (d ∷ ds) root
further has_mod d ds root h (k, (inner, e, w)) =
    (k, (d ∷ inner, ap (λ es. d ∷ es) e, (ap (λ es. has_mod (d ∷ es)) (sym e) ∙ h, w)))

-- The loop ends in every directory. What it returns is the nearest directory, at the one where it
-- starts or above, that has a go.mod.
pub repo_root-IsNearest :
    (has_mod : List String → Bool) (dir root : List String)
    → repo_root has_mod dir ≡ some root
    → IsNearest has_mod dir root
unfolding repo_root
repo_root-IsNearest has_mod [] root h = elim (Bool-cases (has_mod [])) [
  | inl e ↦
      let same : [] ≡ root = ground arith in subst (IsNearest has_mod []) same (e, ([], refl, tt))
  | inr e ↦ ground arith
]
repo_root-IsNearest has_mod (d ∷ ds) root h = elim (Bool-cases (has_mod (d ∷ ds))) [
  | inl e ↦
      let same : d ∷ ds ≡ root = ground arith in
      subst (IsNearest has_mod (d ∷ ds)) same (e, ([], refl, tt))
  | inr e ↦ further has_mod d ds root e (repo_root-IsNearest has_mod ds root (ground arith))
]
