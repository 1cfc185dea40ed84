-- ===== src/Executor/K8s/Scaling.antt =====
-- How a target is read, and what becomes of a request to scale a deployment.
use microservice_diagnosis.Prelude.{
  ℕ, ℤ, true, false, Option, none, some, [], ◌∷◌, ◌++◌, ◌==◌, ==_iff, ◌≡◌, refl, arith, ap,
  Bool-cases, inl, inr, ◌⊎◌,
}
use microservice_diagnosis.Store.World.{failed}
use microservice_diagnosis.Server.Evidence.{Text}
use microservice_diagnosis.Executor.K8s.{
  Scale, FixAction, Client, Cluster, called, slash, contains, split_at, parse_target, get_scale,
  increment, decrement, update_scale, scale_found, scale_up, scale_down, default_namespace,
}

split_at_lem :
    (c : ℕ) (t : Text)
    → contains c t ≡ true
    → (t ≡ (split_at c t).0 ++ c ∷ (split_at c t).1) × (contains c (split_at c t).0 ≡ false)
split_at_lem c [] h = ground arith
split_at_lem c (d ∷ t) h = elim (Bool-cases (d == c)) [
  | inl e ↦ let same : d ≡ c = (==_iff d c).0 e in rw (e, same) (refl, refl)
  | inr e ↦
      let (whole, first) = split_at_lem c t (ground arith) in
      rw (e, e) (ap (λ l. d ∷ l) whole, first)
]

-- A target with a slash is the namespace, the first slash and the name; any other is a name in the
-- default namespace.
pub parse_target_cases :
    (t : Text)
    → (contains slash (parse_target t).0 ≡ false)
      × ((contains slash t ≡ true) × (t ≡ (parse_target t).0 ++ slash ∷ (parse_target t).1)
          ⊎ (contains slash t ≡ false) × (parse_target t ≡ (default_namespace, t)))
unfolding parse_target
parse_target_cases t = elim (Bool-cases (contains slash t)) [
  | inl e ↦ let (whole, first) = split_at_lem slash t e in rw e (first, inl (refl, whole))
  | inr e ↦ rw e (refl, inr (refl, refl))
]

contains-append : (c : ℕ) (s t : Text) → contains c (s ++ c ∷ t) ≡ true
contains-append c [] t = ground arith
contains-append c (d ∷ s) t = rw (contains-append c s t) (ground arith)

update_scale_refused :
    (c : Client) (s : Scale) (k : Cluster)
    → ((ns name : Text) (t : Scale) (n : ℕ)
        → contains slash name ≡ true
        → c.update_scale ns name t n ≡ false)
    → update_scale c s k ≡ (failed, called k)
unfolding update_scale
update_scale_refused c s k names =
    rw (names s.namespace _ s k.calls (contains-append slash s.namespace s.name)) refl

scale_found_refused :
    (c : Client) (f : ℤ → ℤ) (found : Option Scale × Cluster)
    → ((ns name : Text) (t : Scale) (n : ℕ)
        → contains slash name ≡ true
        → c.update_scale ns name t n ≡ false)
    → ((scale_found c f found).0 ≡ failed) × ((scale_found c f found).1.scaled ≡ found.1.scaled)
scale_found_refused c f (none, k) names = (refl, refl)
scale_found_refused c f (some s, k) names =
    let refused = update_scale_refused c (record s { replicas = f s.replicas }) k names in
    (ap (λ r. r.0) refused, ap (λ r. r.1.scaled) refused)

-- Against an API server that takes no resource name with a slash in it, no request to scale a
-- deployment up or down ever succeeds, and none changes a deployment: the name that is sent holds
-- the namespace and a slash.
pub scale_refused :
    (c : Client) (action : FixAction) (k : Cluster)
    → ((ns name : Text) (t : Scale) (n : ℕ)
        → contains slash name ≡ true
        → c.update_scale ns name t n ≡ false)
    → ((scale_up c action k).0 ≡ failed)
      × ((scale_up c action k).1.scaled ≡ k.scaled)
      × ((scale_down c action k).0 ≡ failed)
      × ((scale_down c action k).1.scaled ≡ k.scaled)
unfolding scale_up scale_down get_scale
scale_refused c action k names =
    let up = scale_found_refused c increment (get_scale c action.target k) names in
    let down = scale_found_refused c decrement (get_scale c action.target k) names in
    (up.0, up.1, down.0, down.1)
