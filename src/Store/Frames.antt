-- ===== src/Store/Frames.antt =====
-- What an action leaves alone.
use microservice_diagnosis.Prelude.{◌≡◌, refl, ◌∙◌}
use microservice_diagnosis.Store.World.{World, M, Error, Result, ok, err, continue, ◌>>=◌}

-- The two worlds differ in their ticks at most.
pub record SameTables (v w : World) : Type 0 where
  pub sessions : w.sessions ≡ v.sessions
  pub fixes : w.fixes ≡ v.fixes
  pub approvals : w.approvals ≡ v.approvals
  pub events : w.events ≡ v.events
  pub published : w.published ≡ v.published
  pub executed : w.executed ≡ v.executed
  pub notified : w.notified ≡ v.notified

pub SameTables-refl : (w : World) → SameTables w w
SameTables-refl w = record {
  sessions = refl;
  fixes = refl;
  approvals = refl;
  events = refl;
  published = refl;
  executed = refl;
  notified = refl;
}

pub SameTables-trans : {u v w : World} → SameTables u v → SameTables v w → SameTables u w
SameTables-trans h k = record {
  sessions = k.sessions ∙ h.sessions;
  fixes = k.fixes ∙ h.fixes;
  approvals = k.approvals ∙ h.approvals;
  events = k.events ∙ h.events;
  published = k.published ∙ h.published;
  executed = k.executed ∙ h.executed;
  notified = k.notified ∙ h.notified;
}

-- All but the sessions and their timeline.
pub record SameRest (v w : World) : Type 0 where
  pub fixes : w.fixes ≡ v.fixes
  pub approvals : w.approvals ≡ v.approvals
  pub published : w.published ≡ v.published
  pub executed : w.executed ≡ v.executed
  pub notified : w.notified ≡ v.notified

pub SameRest-trans : {u v w : World} → SameRest u v → SameRest v w → SameRest u w
SameRest-trans h k = record {
  fixes = k.fixes ∙ h.fixes;
  approvals = k.approvals ∙ h.approvals;
  published = k.published ∙ h.published;
  executed = k.executed ∙ h.executed;
  notified = k.notified ∙ h.notified;
}

pub SameTables-SameRest : {v w : World} → SameTables v w → SameRest v w
SameTables-SameRest h = record {
  fixes = h.fixes;
  approvals = h.approvals;
  published = h.published;
  executed = h.executed;
  notified = h.notified;
}

-- Whatever it returns, `m` changes no table.
pub record Reads {A : Type 0} (m : M A) : Type 0 where
  pub at : (w : World) → SameTables w (m w).1

-- When it fails, `m` has changed no table.
pub record Atomic {A : Type 0} (m : M A) : Type 0 where
  pub at : (w : World) {x : Error} → (m w).0 ≡ err x → SameTables w (m w).1

pub record Succeeds {A : Type 0} (m : M A) : Type 0 where
  pub at : (w : World) → (a : A) × ((m w).0 ≡ ok a)

module _ {A B : Type 0} (f : A → M B) where
  Reads-continue :
      (r : Result A) (v w : World)
      → SameTables v w
      → ((a : A) → Reads (f a))
      → SameTables v (continue r f w).1
  Reads-continue (ok a) v w h k = SameTables-trans h ((k a).at w)
  Reads-continue (err x) v w h k = h

  pub Reads-bind : (m : M A) → Reads m → ((a : A) → Reads (f a)) → Reads (m >>= f)
  Reads-bind m h k = record { at = λ w. Reads-continue (m w).0 w (m w).1 (h.at w) k }

  Atomic-continue :
      (r : Result A) (v w : World) {x : Error}
      → SameTables v w
      → ((a : A) → Atomic (f a))
      → (continue r f w).0 ≡ err x
      → SameTables v (continue r f w).1
  Atomic-continue (ok a) v w h k e = SameTables-trans h ((k a).at w e)
  Atomic-continue (err y) v w h k e = h

  -- Reads, and then something atomic.
  pub Atomic-bind : (m : M A) → Reads m → ((a : A) → Atomic (f a)) → Atomic (m >>= f)
  Atomic-bind m h k = record { at = λ w e. Atomic-continue (m w).0 w (m w).1 (h.at w) k e }

  Atomic-settled :
      (r : Result A) (w v : World) {x : Error}
      → ((y : Error) → r ≡ err y → SameTables v w)
      → ((a : A) → Succeeds (f a))
      → (continue r f w).0 ≡ err x
      → SameTables v (continue r f w).1
  Atomic-settled (ok a) w v h k e = cc (((k a).at w).1)
  Atomic-settled (err y) w v h k e = h y refl

  -- Something atomic, and then what cannot fail.
  pub Atomic-bind_last : (m : M A) → Atomic m → ((a : A) → Succeeds (f a)) → Atomic (m >>= f)
  Atomic-bind_last m h k = record {
    at = λ w e. Atomic-settled (m w).0 (m w).1 w (λ y q. h.at w q) k e;
  }

-- Inversion of a chain that returned a value: its first part returned one, and the rest is judged
-- from there.
module _ {A B : Type 0} (f : A → M B) {b : B} (P : World → Type 0) where
  invert-continue :
      (r : Result A) (v : World)
      → ((a : A) → r ≡ ok a → (f a v).0 ≡ ok b → P (f a v).1)
      → (continue r f v).0 ≡ ok b
      → P (continue r f v).1
  invert-continue (ok a) v k e = k a refl e
  invert-continue (err x) v k e = cc

  pub invert :
      (m : M A) (w : World)
      → ((a : A) → (m w).0 ≡ ok a → (f a (m w).1).0 ≡ ok b → P (f a (m w).1).1)
      → ((m >>= f) w).0 ≡ ok b
      → P ((m >>= f) w).1
  invert m w = invert-continue (m w).0 (m w).1

pub ok-injective : {A : Type 0} {a b : A} → Result.ok a ≡ ok b → a ≡ b
ok-injective h = cc
