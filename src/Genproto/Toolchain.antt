-- ===== src/Genproto/Toolchain.antt =====
-- What a bootstrap of the toolchain leaves in ./bin.
use microservice_diagnosis.Prelude.{Bool, true, false, All, ◌≡◌, sym, subst, ap, ◌∙◌, arith}
use microservice_diagnosis.Genproto.Plugins.{
  IsTable, and_then, ensure_plugins-ready, ensure_protoc-ready, ensure_protoc-still,
  ensure_plugins-still, all_present_lem,
}
use microservice_diagnosis.Genproto.{
  PluginDef, plugin_defs, Bin, Outside, ensure_protoc, is_ready, ensure_plugins, verify_toolchain,
  bootstrap,
}

-- The compiler and all plugins are there, each with the marker of its version.
pub record IsComplete (o : Outside) (b : Bin) : Type 0 where
  pub compiler : b.protoc ≡ true
  pub plugins : All (λ (p : PluginDef). is_ready o p b ≡ true) plugin_defs

bootstrap-IsComplete :
    (o : Outside) (b : Bin)
    → IsTable o plugin_defs
    → o.has_protoc ≡ true
    → (bootstrap false o b).0 ≡ true
    → IsComplete o (bootstrap false o b).1
unfolding bootstrap
bootstrap-IsComplete o b d a h =
    let b' : Bin = (ensure_protoc o b).1 in
    let (one, rest, more) = and_then o (ensure_protoc o b).0 (ensure_plugins o b') b' h in
    let (same_compiler, all) = ensure_plugins-ready o b' d more in
    subst (λ (r : Bool × Bin). IsComplete o r.1) (sym rest)
      (record { compiler = same_compiler ∙ ensure_protoc-ready o b a one; plugins = all })

IsComplete-still :
    (o : Outside) (b : Bin) → o.makes_dirs ≡ true → IsComplete o b → bootstrap false o b ≡ (true, b)
unfolding bootstrap
IsComplete-still o b m c =
    rw (ensure_protoc-still o b c.compiler) (ensure_plugins-still o b m c.plugins)

IsComplete-verify : (o : Outside) (b : Bin) → IsComplete o b → verify_toolchain b ≡ true
unfolding verify_toolchain
IsComplete-verify o b c = ground (arith, all_present_lem o plugin_defs b c.plugins)

IsComplete-trim :
    (o again : Outside) (b : Bin) → again.trim ≡ o.trim → IsComplete o b → IsComplete again b
IsComplete-trim o again b t c = record {
  compiler = c.compiler;
  plugins =
      subst
        (λ f. All (λ (p : PluginDef). is_ready (record again { trim = f }) p b ≡ true) plugin_defs)
        (sym t) c.plugins;
}

verified : (o : Outside) (b : Bin) → verify_toolchain b ≡ true → bootstrap true o b ≡ (true, b)
unfolding bootstrap
verified o b h = ap (λ r. (r, b)) h

-- When the archive has the compiler and the versions have no white space at their ends, a bootstrap
-- that succeeds leaves a toolchain that a run with -skip-bootstrap accepts, and a second bootstrap
-- downloads and installs nothing and leaves every file as it is, whatever a download or an installation
-- would answer then, if only ./bin can be made.
pub bootstrap_twice :
    (o again : Outside) (b : Bin)
    → IsTable o plugin_defs
    → o.has_protoc ≡ true
    → again.trim ≡ o.trim
    → again.makes_dirs ≡ true
    → (bootstrap false o b).0 ≡ true
    → (bootstrap true again (bootstrap false o b).1 ≡ (true, (bootstrap false o b).1))
      × (bootstrap false again (bootstrap false o b).1 ≡ (true, (bootstrap false o b).1))
bootstrap_twice o again b d a t m h =
    let b' : Bin = (bootstrap false o b).1 in
    let c : IsComplete o b' = bootstrap-IsComplete o b d a h in
    (
      verified again b' (IsComplete-verify o b' c),
      IsComplete-still again b' m (IsComplete-trim o again b' t c),
    )
