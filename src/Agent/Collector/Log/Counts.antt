-- ===== src/Agent/Collector/Log/Counts.antt =====
-- What the patterns of the log agent count.
use mathlib.Core.List.{Permᴰ}
use microservice_diagnosis.Prelude.{
  ℕ, ◌+◌, ◌≤◌, ◌<◌, String, false, List, [], ◌∷◌, ◌++◌, All, ◌≡◌, ◌↔◌, refl, ◌∙◌, ap, arith,
  Bool-cases, inl, inr, ==_iff, ◌==◌,
}
use microservice_diagnosis.Agent.Observation.{error, fatal, Observation}
use microservice_diagnosis.Agent.Collector.Log.{
  LogPattern, Group, logs_of, same_key, add_log, group_logs, is_error, count_errors, grade,
  patterns_of, detect_log_patterns,
}

-- The errors in the logs of some groups, and those that some patterns count.
abbrev errors_in : List Group → ℕ
errors_in [] = 0
errors_in (g ∷ gs) = count_errors (logs_of g) + errors_in gs

abbrev pub counted : List LogPattern → ℕ
counted [] = 0
counted (p ∷ ps) = p.count + counted ps

count_errors-append :
    (xs ys : List Observation) → count_errors (xs ++ ys) ≡ count_errors xs + count_errors ys
unfolding count_errors
count_errors-append [] ys = omega arith
count_errors-append (x ∷ xs) ys = elim (Bool-cases (is_error x.severity)) [
  | inl e ↦ rw e (omega (arith, count_errors-append xs ys))
  | inr e ↦ rw e (count_errors-append xs ys)
]

add_log-errors :
    (l : Observation) (gs : List Group)
    → errors_in (add_log l gs) ≡ count_errors (l ∷ []) + errors_in gs
unfolding add_log
add_log-errors l [] = refl
add_log-errors l (g ∷ gs) = elim (Bool-cases (same_key g.first l)) [
  | inl e ↦ rw e (omega (arith, count_errors-append (logs_of g) (l ∷ [])))
  | inr e ↦ rw e (omega (arith, add_log-errors l gs))
]

no_errors : count_errors [] ≡ 0
unfolding count_errors
no_errors = refl

group_logs-errors :
    (ls : List Observation) (gs : List Group)
    → errors_in (group_logs ls gs) ≡ count_errors ls + errors_in gs
unfolding group_logs
group_logs-errors [] gs = omega (arith, no_errors)
group_logs-errors (l ∷ ls) gs = omega (
  arith,
  group_logs-errors ls (add_log l gs),
  add_log-errors l gs,
  count_errors-append (l ∷ []) ls,
)

errors_in-Permᴰ : {gs hs : List Group} → Permᴰ gs hs → errors_in gs ≡ errors_in hs
errors_in-Permᴰ Permᴰ.nil = refl
errors_in-Permᴰ (Permᴰ.cons e p) =
    omega (arith, ap (λ g. count_errors (logs_of g)) e, errors_in-Permᴰ p)
errors_in-Permᴰ (Permᴰ.swap e f) =
    omega (arith, ap (λ g. count_errors (logs_of g)) e, ap (λ g. count_errors (logs_of g)) f)
errors_in-Permᴰ (Permᴰ.trans p q) = errors_in-Permᴰ p ∙ errors_in-Permᴰ q

-- A pattern counts at least one error, and is FATAL from six on, whatever the severity of its logs.
abbrev pub IsPattern : LogPattern → Type 0
IsPattern p =
    (0 < p.count) × ((p.severity ≡ fatal) ↔ (5 < p.count)) × ((p.severity ≡ error) ↔ (p.count ≤ 5))

grade_fatal : (n : ℕ) → (grade n ≡ fatal) ↔ (5 < n)
grade_fatal n = ground arith

grade_error : (n : ℕ) → (grade n ≡ error) ↔ (n ≤ 5)
grade_error n = ground arith

nonzero : (n : ℕ) → (n == 0) ≡ false → 0 < n
nonzero n h = ground arith

patterns_of-counted :
    (show : ℕ → String) (gs : List Group)
    → (counted (patterns_of show gs) ≡ errors_in gs) × All IsPattern (patterns_of show gs)
unfolding patterns_of
patterns_of-counted show [] = (refl, tt)
patterns_of-counted show (g ∷ gs) =
    let n = count_errors (logs_of g) in
    let rest = patterns_of-counted show gs in
    elim (Bool-cases (n == 0)) [
      | inl e ↦ rw e (omega (arith, rest.0, (==_iff n 0).0 e), rest.1)
      | inr e ↦ rw e (omega (arith, rest.0), ((nonzero n e, grade_fatal n, grade_error n), rest.1))
    ]

-- In whatever order the groups are gone through, the patterns that the log agent detects count every
-- log of severity ERROR or FATAL once; each counts at least one, and is FATAL exactly if it counts
-- more than five and ERROR otherwise.
pub detect_log_patterns-counted :
    (show : ℕ → String) (order : List Group → List Group) (logs : List Observation)
    → ((gs : List Group) → Permᴰ (order gs) gs)
    → (counted (detect_log_patterns show order logs) ≡ count_errors logs)
      × All IsPattern (detect_log_patterns show order logs)
unfolding detect_log_patterns
detect_log_patterns-counted show order logs permuted =
    let found = patterns_of-counted show (order (group_logs logs [])) in
    (
      omega (
        arith,
        found.0,
        errors_in-Permᴰ (permuted (group_logs logs [])),
        group_logs-errors logs [],
      ),
      found.1,
    )
