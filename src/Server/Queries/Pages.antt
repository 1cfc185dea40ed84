-- ===== src/Server/Queries/Pages.antt =====
-- What the pages of ListSessions have together.
use native.Mathlib.Nat.{zero-mul, suc-mul}
use mathlib.Core.List.{map-append}
use microservice_diagnosis.Prelude.{
  ℕ, zero, suc, ◌+◌, ◌-◌, ◌*◌, pos, Bool, false, some, List, [], ◌∷◌, ◌++◌, filter, leb, ◌==◌, All,
  Agrees, sort_by, sort_by-agree, map, take, drop, take-add, ◌≡◌, refl, sym, ap, ◌∙◌, arith,
}
use microservice_diagnosis.Store.Rows.{DiagnosticSession}
use microservice_diagnosis.Store.World.{World, Env, Result, ok, query}
use microservice_diagnosis.Store.SessionList.{Database, comes_first, list, matches, matching}
use microservice_diagnosis.Server.Queries.{
  Session, to_session_proto, ListSessionsRequest, Response, listed, filter_of, list_sessions,
}

-- The same request for another page.
abbrev pub at_page : ℕ → ℕ → ListSessionsRequest → ListSessionsRequest
at_page n size r = record r { page = pos (suc n); page_size = pos (suc size) }

abbrev pub shown : Result Response → List Session
shown (ok (listed answer)) = answer.sessions
shown _ = []

-- The world in which the page `n` is asked for, when the pages before have been.
abbrev pub world_at : Env → Database → ListSessionsRequest → ℕ → World → ℕ → World
world_at env d r size w zero = w
world_at env d r size w (suc n) =
    (list_sessions env d (some (at_page n size r)) (world_at env d r size w n)).1

-- The first `n` pages of `size + 1` sessions, asked for one after the other.
abbrev pub pages : Env → Database → ListSessionsRequest → ℕ → World → ℕ → List Session
pages env d r size w zero = []
pages env d r size w (suc n) =
    pages env d r size w n
    ++ shown (list_sessions env d (some (at_page n size r)) (world_at env d r size w n)).0

-- The newer of two sessions.
abbrev pub newer : DiagnosticSession → DiagnosticSession → Bool
newer a b = leb b.created_at a.created_at

-- No two sessions of the list were created at the same time.
abbrev pub AreDistinct : List DiagnosticSession → Type 0
AreDistinct [] = Unit
AreDistinct (s ∷ ss) =
    All (λ (t : DiagnosticSession). (s.created_at == t.created_at) ≡ false) ss × AreDistinct ss

comes_first-newer :
    (d : Database) (tick : ℕ) (s : DiagnosticSession) (ss : List DiagnosticSession)
    → All (λ (t : DiagnosticSession). (s.created_at == t.created_at) ≡ false) ss
    → All (λ t. comes_first d tick s t ≡ newer s t) ss
comes_first-newer d tick s [] h = tt
comes_first-newer d tick s (t ∷ ss) h = (rw (h.0) refl, comes_first-newer d tick s ss h.1)

AreDistinct-Agrees :
    (d : Database) (tick : ℕ) (ss : List DiagnosticSession)
    → AreDistinct ss
    → Agrees (comes_first d tick) newer ss
AreDistinct-Agrees d tick [] h = tt
AreDistinct-Agrees d tick (s ∷ ss) h =
    (comes_first-newer d tick s ss h.0, AreDistinct-Agrees d tick ss h.1)

list_sessions-sessions :
    (env : Env) (d : Database) (r : ListSessionsRequest) (size n : ℕ) (w : World)
    → ((t : ℕ) → env.fault t ≡ false)
    → (list_sessions env d (some (at_page n size r)) w).1.sessions ≡ w.sessions
unfolding list_sessions list query
list_sessions-sessions env d r size n w calm = rw (calm w.tick, calm (w.tick + 1)) refl

world_at-sessions :
    (env : Env) (d : Database) (r : ListSessionsRequest) (size n : ℕ) (w : World)
    → ((t : ℕ) → env.fault t ≡ false)
    → (world_at env d r size w n).sessions ≡ w.sessions
world_at-sessions env d r size zero w calm = refl
world_at-sessions env d r size (suc n) w calm =
    list_sessions-sessions env d r size n (world_at env d r size w n) calm
    ∙ world_at-sessions env d r size n w calm

-- All that match, the newest first.
abbrev pub newest : Database → ListSessionsRequest → World → List DiagnosticSession
newest d r w = sort_by newer (matching d (filter_of r) w)

page_lem :
    (env : Env) (d : Database) (r : ListSessionsRequest) (size n : ℕ) (w : World)
    → ((t : ℕ) → env.fault t ≡ false)
    → shown (list_sessions env d (some (at_page n size r)) w).0
      ≡ map to_session_proto (
          take (suc size) (
            drop
              ((suc n - 1) * suc size)
              (sort_by (comes_first d (w.tick + 1)) (matching d (filter_of r) w))))
unfolding list_sessions list query
page_lem env d r size n w calm = rw (calm w.tick, calm (w.tick + 1)) refl

page_newest :
    (env : Env) (d : Database) (r : ListSessionsRequest) (size n : ℕ) (v w : World)
    → ((t : ℕ) → env.fault t ≡ false)
    → AreDistinct (matching d (filter_of r) w)
    → v.sessions ≡ w.sessions
    → shown (list_sessions env d (some (at_page n size r)) v).0
      ≡ map to_session_proto (take (suc size) (drop (n * suc size) (newest d r w)))
page_newest env d r size n v w calm h same =
    page_lem env d r size n v calm
    ∙ ap
        (λ ss. map to_session_proto (
          take (suc size) (
            drop ((suc n - 1) * suc size)
              (sort_by (comes_first d (v.tick + 1)) (filter (matches d (filter_of r)) ss)))))
        same
    ∙ ap (λ ss. map to_session_proto (take (suc size) (drop ((suc n - 1) * suc size) ss)))
        (sort_by-agree (comes_first d (v.tick + 1)) newer (matching d (filter_of r) w)
          (AreDistinct-Agrees d (v.tick + 1) (matching d (filter_of r) w) h))
    ∙ ap (λ k. map to_session_proto (take (suc size) (drop (k * suc size) (newest d r w))))
        (omega arith)

next_multiple : (n k : ℕ) → n * suc k + suc k ≡ suc n * suc k
next_multiple n k = sym (suc-mul n (suc k))

-- When no query fails and no two sessions that match were created at the same time, the first pages of
-- a list of sessions, asked for one after the other, have together the newest sessions that match, the
-- newest first and each once, up to their number and size; however each query orders rows of one time.
pub pages-take :
    (env : Env) (d : Database) (r : ListSessionsRequest) (size n : ℕ) (w : World)
    → ((t : ℕ) → env.fault t ≡ false)
    → AreDistinct (matching d (filter_of r) w)
    → pages env d r size w n ≡ map to_session_proto (take (n * suc size) (newest d r w))
pages-take env d r size zero w calm h =
    ap (λ k. map to_session_proto (take k (newest d r w))) (sym (zero-mul (suc size)))
pages-take env d r size (suc n) w calm h =
    let all = newest d r w in
    let v = world_at env d r size w n in
    let last = page_newest env d r size n v w calm h (world_at-sessions env d r size n w calm) in
    ap (λ l. l ++ shown (list_sessions env d (some (at_page n size r)) v).0)
      (pages-take env d r size n w calm h)
    ∙ ap (λ l. map to_session_proto (take (n * suc size) all) ++ l) last
    ∙ sym (
        map-append to_session_proto (take (n * suc size) all)
          (take (suc size) (drop (n * suc size) all)))
    ∙ ap (map to_session_proto)
        (sym (take-add (n * suc size) (suc size) all) ∙ ap (λ k. take k all) (next_multiple n size))
