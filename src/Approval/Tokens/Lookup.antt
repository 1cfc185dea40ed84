-- ===== src/Approval/Tokens/Lookup.antt =====
-- What a token's entry is after Resolve.
use microservice_diagnosis.Prelude.{
  String, false, Option, none, some, [], ◌∷◌, str_eq, eq_iff, ◌≡◌, refl, Bool-cases, inl, inr,
}
use microservice_diagnosis.Approval.Tokens.{TokenEntry, ApprovalResult, Tokens, entry_of, resolve}

abbrev pub with_result : ApprovalResult → Option TokenEntry → Option TokenEntry
with_result r none = none
with_result r (some e) = some (record e { result = some r })

pub entry_of-resolve :
    (token : String) (r : ApprovalResult) (ts : Tokens)
    → entry_of token (resolve token r ts).1 ≡ with_result r (entry_of token ts)
unfolding entry_of resolve
entry_of-resolve token r [] = refl
entry_of-resolve token r ((t, e) ∷ ts) = elim (Bool-cases (str_eq t token)) [
  | inl h ↦ rw h (rw h refl)
  | inr h ↦ rw h (rw h (entry_of-resolve token r ts))
]

pub entry_of-resolve_other :
    (token other : String) (r : ApprovalResult) (ts : Tokens)
    → str_eq token other ≡ false
    → entry_of other (resolve token r ts).1 ≡ entry_of other ts
unfolding entry_of resolve
entry_of-resolve_other token other r [] apart = refl
entry_of-resolve_other token other r ((t, e) ∷ ts) apart = elim (Bool-cases (str_eq t token)) [
  | inl h ↦ rw h (rw ((eq_iff t token).0 h) (rw apart refl))
  | inr h ↦ rw h (elim (Bool-cases (str_eq t other)) [
    | inl k ↦ rw k refl
    | inr k ↦ rw k (entry_of-resolve_other token other r ts apart)
  ])
]
