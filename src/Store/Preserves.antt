-- ===== src/Store/Preserves.antt =====
-- A property of the world that an action preserves, whatever the action returns: one rule for each way
-- to build an action.
use microservice_diagnosis.Prelude.{◌≡◌, ◌∙◌, sym, subst, Bool, true, false, All, if◌then◌else◌}
use microservice_diagnosis.Store.Rows.{DiagnosticSession}
use microservice_diagnosis.Store.World.{
  World, M, Error, Result, ok, err, pure, throw, continue, try, ◌>>=◌,
}

pub record Preserves {A : Type 0} (P : World → Type 0) (m : M A) : Type 0 where
  pub at : (w : World) → P w → P (m w).1

module _ {A : Type 0} {P : World → Type 0} where
  pub Preserves-pure : (a : A) → Preserves P (pure a)
  Preserves-pure a = record { at = λ w h. h }

  pub Preserves-throw : (e : Error) → Preserves P (throw {A = A} e)
  Preserves-throw e = record { at = λ w h. h }

  pub Preserves-try : (m : M A) → Preserves P m → Preserves P (try m)
  Preserves-try m h = record { at = h.at }

  pub Preserves-if :
      (b : Bool) (m k : M A) → Preserves P m → Preserves P k → Preserves P (if b then m else k)
  Preserves-if true m k h l = h
  Preserves-if false m k h l = l

module _ {A B : Type 0} {P : World → Type 0} where
  Preserves-continue :
      (r : Result A) (f : A → M B) (w : World)
      → ((a : A) → Preserves P (f a))
      → P w
      → P (continue r f w).1
  Preserves-continue (ok a) f w h p = (h a).at w p
  Preserves-continue (err x) f w h p = p

  pub Preserves-bind :
      (m : M A) (f : A → M B)
      → Preserves P m
      → ((a : A) → Preserves P (f a))
      → Preserves P (m >>= f)
  Preserves-bind m f h k = record { at = λ w p. Preserves-continue (m w).0 f (m w).1 k (h.at w p) }

pub ruleset preserves_rules = (Preserves-pure, Preserves-throw, Preserves-try, Preserves-bind)

-- What holds of every session is preserved by an action that keeps the sessions.
pub Preserves-sessions :
    {A : Type 0} (Q : DiagnosticSession → Type 0) (m : M A)
    → ((w : World) → (m w).1.sessions ≡ w.sessions)
    → Preserves (λ w. All Q w.sessions) m
Preserves-sessions Q m h = record { at = λ w p. subst (All Q) (sym (h w)) p }

-- A part of the world that an action keeps stays the one that it is.
pub Preserves-kept :
    {A V : Type 0} (part : World → V) (v : V) (m : M A)
    → ((w : World) → part (m w).1 ≡ part w)
    → Preserves (λ w. part w ≡ v) m
Preserves-kept part v m h = record { at = λ w e. h w ∙ e }
