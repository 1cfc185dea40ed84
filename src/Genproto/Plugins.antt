-- ===== src/Genproto/Plugins.antt =====
-- What the two halves of a bootstrap, the compiler and the plugins, leave in ./bin.
use microservice_diagnosis.Prelude.{
  String, Bool, true, false, not, some, List, [], ◌∷◌, str_eq, eq_iff, All, ◌≡◌, ◌≢◌, refl, sym,
  subst, ◌∙◌, arith, Bool-cases, inl, inr, if◌then◌else◌,
}
use microservice_diagnosis.Prelude.Dict.{Dict, lookup, insert, lookup-insert}
use microservice_diagnosis.Genproto.{
  PluginDef, plugin_defs, Bin, Outside, ensure_protoc, is_ready, ensure_one, ensure_each,
  ensure_plugins, all_present, marked_by, installed_by, install_one, install_arg,
}

same : (s : String) → str_eq s s ≡ true
same s = (eq_iff s s).1 refl

lookup-insert_self : (k v : String) (d : Dict String) → lookup k (insert k v d) ≡ some v
lookup-insert_self k v d = rw (lookup-insert k k v d, same k) refl

false_ne_true : false ≢ true
false_ne_true h = cc

-- The versions have no white space at their ends, and the names are different.
abbrev pub IsTable : Outside → List PluginDef → Type 0
IsTable o [] = Unit
IsTable o (p ∷ ps) =
    (o.trim p.version ≡ p.version)
    × All (λ (q : PluginDef). str_eq q.name p.name ≡ false) ps
    × IsTable o ps

module _ (o : Outside) where
  marked-ready :
      (p : PluginDef) (b : Bin)
      → o.trim p.version ≡ p.version
      → is_ready o p (marked_by p (installed_by o p b)) ≡ true
  marked-ready p b t =
      rw
        (
          lookup-insert_self p.name p.version b.exes,
          lookup-insert_self p.name p.version b.markers,
          t,
        )
        (same p.version)

  install_one-ready :
      (p : PluginDef) (b : Bin)
      → o.trim p.version ≡ p.version
      → (install_one o p b).0 ≡ true
      → is_ready o p (install_one o p b).1 ≡ true
  install_one-ready p b t h = elim (Bool-cases (o.installs (install_arg p))) [
    | inl e ↦ elim (Bool-cases (o.writes p.name)) [
      | inl f ↦ simp (e, f) (marked-ready p b t)
      | inr f ↦ ground arith
    ]
    | inr e ↦ ground arith
  ]

  ready_if :
      (p : PluginDef) (b : Bin) (c : Bool) (x : Bool × Bin)
      → (c ≡ true → is_ready o p b ≡ true)
      → (x.0 ≡ true → is_ready o p x.1 ≡ true)
      → (if c then (true, b) else x).0 ≡ true
      → is_ready o p (if c then (true, b) else x).1 ≡ true
  ready_if p b true x f g h = f refl
  ready_if p b false x f g h = g h

  -- A plugin that is ready, or has just been made so.
  ensure_one-ready :
      (p : PluginDef) (b : Bin)
      → o.trim p.version ≡ p.version
      → (ensure_one o p b).0 ≡ true
      → is_ready o p (ensure_one o p b).1 ≡ true
  ensure_one-ready p b t h =
      ready_if p b (is_ready o p b) (install_one o p b) (λ e. e) (install_one-ready p b t) h

  -- Another plugin stays as it is.
  installed-other :
      (p q : PluginDef) (b : Bin)
      → str_eq q.name p.name ≡ false
      → is_ready o p (installed_by o q b) ≡ is_ready o p b
  installed-other p q b n = rw (lookup-insert p.name q.name q.version b.exes, n) refl

  marked-other :
      (p q : PluginDef) (b : Bin)
      → str_eq q.name p.name ≡ false
      → is_ready o p (marked_by q b) ≡ is_ready o p b
  marked-other p q b n = rw (lookup-insert p.name q.name q.version b.markers, n) refl

  branch_other :
      (p : PluginDef) (b : Bin) (c : Bool) (x y : Bool × Bin)
      → is_ready o p x.1 ≡ is_ready o p b
      → is_ready o p y.1 ≡ is_ready o p b
      → is_ready o p (if c then x else y).1 ≡ is_ready o p b
  branch_other p b true x y h k = h
  branch_other p b false x y h k = k

  ensure_one-other :
      (p q : PluginDef) (b : Bin)
      → str_eq q.name p.name ≡ false
      → is_ready o p (ensure_one o q b).1 ≡ is_ready o p b
  ensure_one-other p q b n =
      branch_other p b (is_ready o q b) (true, b) (install_one o q b) refl
        (branch_other p b (not (o.installs (install_arg q))) (false, b)
          (if o.writes q.name
            then (true, marked_by q (installed_by o q b))
            else (false, installed_by o q b))
          refl
          (branch_other p b (o.writes q.name) _ _
            (marked-other p q (installed_by o q b) n ∙ installed-other p q b n)
            (installed-other p q b n)))

  ensure_each-other :
      (p : PluginDef) (qs : List PluginDef) (b : Bin)
      → All (λ (q : PluginDef). str_eq q.name p.name ≡ false) qs
      → is_ready o p (ensure_each o qs b).1 ≡ is_ready o p b
  unfolding ensure_each
  ensure_each-other p [] b n = refl
  ensure_each-other p (q ∷ qs) b (n, ns) =
      branch_other p b (ensure_one o q b).0 (ensure_each o qs (ensure_one o q b).1)
        (false, (ensure_one o q b).1)
        (ensure_each-other p qs (ensure_one o q b).1 ns ∙ ensure_one-other p q b n)
        (ensure_one-other p q b n)

  -- The loop goes on only after a plugin with no error.
  pub and_then :
      (c : Bool) (x : Bool × Bin) (b : Bin)
      → (if c then x else (false, b)).0 ≡ true
      → (c ≡ true) × ((if c then x else (false, b)) ≡ x) × (x.0 ≡ true)
  and_then true x b h = (refl, refl, h)
  and_then false x b h = absurd (false_ne_true h)

  ensure_each-ready :
      (ps : List PluginDef) (b : Bin)
      → IsTable o ps
      → (ensure_each o ps b).0 ≡ true
      → All (λ (p : PluginDef). is_ready o p (ensure_each o ps b).1 ≡ true) ps
  unfolding ensure_each
  ensure_each-ready [] b d h = tt
  ensure_each-ready (p ∷ ps) b (t, n, d) h =
      let b' : Bin = (ensure_one o p b).1 in
      let (one, rest, more) = and_then (ensure_one o p b).0 (ensure_each o ps b') b' h in
      subst (λ (r : Bool × Bin). All (λ (q : PluginDef). is_ready o q r.1 ≡ true) (p ∷ ps))
        (sym rest)
        (ensure_each-other p ps b' n ∙ ensure_one-ready p b t one, ensure_each-ready ps b' d more)

  -- A loop over plugins that are ready changes nothing.
  ensure_each-still :
      (ps : List PluginDef) (b : Bin)
      → All (λ (p : PluginDef). is_ready o p b ≡ true) ps
      → ensure_each o ps b ≡ (true, b)
  unfolding ensure_each
  ensure_each-still [] b h = refl
  ensure_each-still (p ∷ ps) b (r, rs) = rw r (ensure_each-still ps b rs)

  pub all_present_lem :
      (ps : List PluginDef) (b : Bin)
      → All (λ (p : PluginDef). is_ready o p b ≡ true) ps
      → all_present ps b ≡ true
  all_present_lem [] b h = refl
  all_present_lem (p ∷ ps) b (r, rs) = ground (arith, all_present_lem ps b rs)

  pub ensure_protoc-ready :
      (b : Bin)
      → o.has_protoc ≡ true
      → (ensure_protoc o b).0 ≡ true
      → (ensure_protoc o b).1.protoc ≡ true
  unfolding ensure_protoc
  ensure_protoc-ready b a h = ground arith

  branch_protoc :
      (b : Bin) (c : Bool) (x y : Bool × Bin)
      → x.1.protoc ≡ b.protoc
      → y.1.protoc ≡ b.protoc
      → (if c then x else y).1.protoc ≡ b.protoc
  branch_protoc b true x y h k = h
  branch_protoc b false x y h k = k

  ensure_each-protoc : (ps : List PluginDef) (b : Bin) → (ensure_each o ps b).1.protoc ≡ b.protoc
  unfolding ensure_each
  ensure_each-protoc [] b = refl
  ensure_each-protoc (p ∷ ps) b =
      let one : (ensure_one o p b).1.protoc ≡ b.protoc =
        branch_protoc b (is_ready o p b) (true, b) (install_one o p b) refl
          (branch_protoc b (not (o.installs (install_arg p))) (false, b)
            (if o.writes p.name
              then (true, marked_by p (installed_by o p b))
              else (false, installed_by o p b))
            refl (branch_protoc b (o.writes p.name) _ _ refl refl)) in
      branch_protoc b (ensure_one o p b).0 (ensure_each o ps (ensure_one o p b).1)
        (false, (ensure_one o p b).1) (ensure_each-protoc ps (ensure_one o p b).1 ∙ one) one

  if_true : {A : Type 0} (c : Bool) (x y : A) → c ≡ true → (if c then x else y) ≡ x
  if_true true x y h = refl
  if_true false x y h = absurd (false_ne_true h)

  pub ensure_protoc-still : (b : Bin) → b.protoc ≡ true → ensure_protoc o b ≡ (true, b)
  unfolding ensure_protoc
  ensure_protoc-still b h = if_true b.protoc (true, b) _ h

  pub ensure_plugins-still :
      (b : Bin)
      → o.makes_dirs ≡ true
      → All (λ (p : PluginDef). is_ready o p b ≡ true) plugin_defs
      → ensure_plugins o b ≡ (true, b)
  unfolding ensure_plugins
  ensure_plugins-still b m h =
      if_true o.makes_dirs _ (false, b) m ∙ ensure_each-still plugin_defs b h

  pub ensure_plugins-ready :
      (b : Bin)
      → IsTable o plugin_defs
      → (ensure_plugins o b).0 ≡ true
      → ((ensure_plugins o b).1.protoc ≡ b.protoc)
        × All (λ (p : PluginDef). is_ready o p (ensure_plugins o b).1 ≡ true) plugin_defs
  unfolding ensure_plugins
  ensure_plugins-ready b d h =
      let (made, all, done) = and_then o.makes_dirs (ensure_each o plugin_defs b) b h in
      subst
        (λ (r : Bool × Bin).
          (r.1.protoc ≡ b.protoc) × All (λ (p : PluginDef). is_ready o p r.1 ≡ true) plugin_defs)
        (sym all) (ensure_each-protoc plugin_defs b, ensure_each-ready plugin_defs b d done)
