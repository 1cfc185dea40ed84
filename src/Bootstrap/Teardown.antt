-- ===== src/Bootstrap/Teardown.antt =====
-- What Run has undone when it returns.
use microservice_diagnosis.Prelude.{
  ℕ, ◌+◌, String, Bool, true, false, not, Option, none, some, List, [], ◌∷◌, ◌++◌, ◌≡◌, refl, sym,
  ◌∙◌, arith, if◌then◌else◌,
}
use microservice_diagnosis.Bootstrap.{
  Options, Outside, Config, Effect, Ending, serve, run, run_with, with_pool, prefixed, close_pool,
  opened_pool, closed_pool, started_server, shut_server_down, registered, deregistered, stopped,
  exited, failed, pg_ping,
}

-- How often the effects hold each of the four that come in pairs, and the ids that are registered and
-- deregistered.
pub record Tally : Type 0 where
  pub opened : ℕ
  pub closed : ℕ
  pub started : ℕ
  pub shut_down : ℕ
  pub joined : List String
  pub left : List String

abbrev count : Effect → Tally → Tally
count opened_pool t = record t { opened = t.opened + 1 }
count closed_pool t = record t { closed = t.closed + 1 }
count started_server t = record t { started = t.started + 1 }
count shut_server_down t = record t { shut_down = t.shut_down + 1 }
count (registered id) t = record t { joined = id ∷ t.joined }
count (deregistered id) t = record t { left = id ∷ t.left }
count _ t = t

abbrev nothing : Tally
nothing = record { opened = 0; closed = 0; started = 0; shut_down = 0; joined = []; left = [] }

abbrev pub tally : List Effect → Tally
tally [] = nothing
tally (e ∷ es) = count e (tally es)

-- What Consul has accepted is deregistered, if Deregister succeeds; nothing is, if it fails.
abbrev pub LeavesConsul : Outside → Tally → Type 0
LeavesConsul o t =
    if o.deregisters then t.joined ≡ (if o.accepts then t.left else []) else t.left ≡ []

-- The resources of serve, which opens no pool.
abbrev SettlesServe : Outside → Ending → Tally → Type 0
SettlesServe o stopped t =
    (t.closed ≡ 0)
    × (t.opened ≡ 0)
    × (t.shut_down ≡ (if o.shuts_down then t.started else 0))
    × LeavesConsul o t
SettlesServe o _ t = (t.closed ≡ 0) × (t.opened ≡ 0) × (t.shut_down ≡ 0) × (t.left ≡ [])

serve-Settles :
    (service : String) (opts : Options) (o : Outside) (cfg : Config) (pool : Bool)
    → SettlesServe o (serve service opts o cfg pool).1 (tally (serve service opts o cfg pool).0)
unfolding serve
serve-Settles service opts o cfg true = ground arith
serve-Settles service opts o cfg false = ground arith

-- What is undone when Run ends. With nil: the pool, the server unless Shutdown fails, and what Consul
-- has accepted unless Deregister fails. With
-- an error: the pool alone. By os.Exit: nothing.
abbrev pub Settles : Outside → Ending → Tally → Type 0
Settles o stopped t =
    (t.closed ≡ t.opened)
    × (t.shut_down ≡ (if o.shuts_down then t.started else 0))
    × LeavesConsul o t
Settles o (failed e) t = (t.closed ≡ t.opened) × (t.shut_down ≡ 0) × (t.left ≡ [])
Settles o exited t = (t.closed ≡ 0) × (t.shut_down ≡ 0) × (t.left ≡ [])

serve_alone : (o : Outside) (e : Ending) (t : Tally) → SettlesServe o e t → Settles o e t
serve_alone o stopped t (c, p, s, j) = (c ∙ sym p, s, j)
serve_alone o (failed e) t (c, p, s, j) = (c ∙ sym p, s, j)
serve_alone o exited t (c, p, s, j) = (c, s, j)

tally-closed :
    (es : List Effect)
    → tally (es ++ closed_pool ∷ []) ≡ record (tally es) { closed = (tally es).closed + 1 }
tally-closed [] = refl
tally-closed (opened_pool ∷ es) = rw (tally-closed es) refl
tally-closed (_ ∷ es) = rw (tally-closed es) refl

pooled :
    (o : Outside) (r : List Effect × Ending)
    → SettlesServe o r.1 (tally r.0)
    → Settles o
        (prefixed (opened_pool ∷ []) (close_pool r)).1
        (tally (prefixed (opened_pool ∷ []) (close_pool r)).0)
pooled o (es, stopped) (c, p, s, j) = rw (tally-closed es) (omega arith, s, j)
pooled o (es, failed e) (c, p, s, l) = rw (tally-closed es) (omega arith, s, l)
pooled o (es, exited) (c, p, s, l) = (c, s, l)

abbrev SettlesAt : Outside → List Effect × Ending → Type 0
SettlesAt o r = Settles o r.1 (tally r.0)

branch :
    (o : Outside) (b : Bool) (x y : List Effect × Ending)
    → SettlesAt o x
    → SettlesAt o y
    → SettlesAt o (if b then x else y)
branch o true x y h k = h
branch o false x y h k = k

pinged :
    (service : String) (opts : Options) (o : Outside) (cfg : Config) (b : Bool)
    → SettlesAt o (
        prefixed
          (opened_pool ∷ [])
          (close_pool (if b then serve service opts o cfg true else ([], failed pg_ping))))
pinged service opts o cfg true =
    pooled o (serve service opts o cfg true) (serve-Settles service opts o cfg true)
pinged service opts o cfg false = (refl, refl, refl)

with_pool-Settles :
    (service : String) (opts : Options) (o : Outside) (cfg : Config)
    → SettlesAt o (with_pool service opts o cfg)
with_pool-Settles service opts o cfg =
    branch o (not o.parses) _ _ (refl, refl, refl)
      (branch o (not o.opens_pool) _ _ (refl, refl, refl) (pinged service opts o cfg o.pings))

run_with-Settles :
    (service : String) (opts : Options) (o : Outside) (cfg : Option Config)
    → SettlesAt o (run_with service opts o cfg)
run_with-Settles service opts o none = (refl, refl, refl)
run_with-Settles service opts o (some cfg) =
    branch o opts.skip_database _ _ (serve_alone o _ _ (serve-Settles service opts o cfg false))
      (with_pool-Settles service opts o cfg)

-- When Run returns nil, the pool that it has opened is closed, the server is shut down unless
-- srv.Shutdown fails, and the id that Consul has accepted is deregistered unless Deregister fails. When it returns an error, the pool is closed, but the server is not shut
-- down and nothing is deregistered. When a hook ends the process, nothing is closed or deregistered.
pub run-Settles :
    (service : String) (opts : Options) (o : Outside)
    → Settles o (run service opts o).1 (tally (run service opts o).0)
unfolding run
run-Settles service opts o = run_with-Settles service opts o o.config
