-- ===== src/Store/Keeps.antt =====
-- A part of the world that an action leaves as it is, whatever the action returns: one rule for each
-- way to build an action.
use microservice_diagnosis.Prelude.{◌≡◌, ◌∙◌, refl, ap, Bool, true, false, if◌then◌else◌}
use microservice_diagnosis.Store.World.{
  World, M, Error, Result, ok, err, pure, throw, continue, try, ◌>>=◌,
}

pub record Keeps {X A : Type 0} (part : World → X) (m : M A) : Type 0 where
  pub at : (w : World) → part (m w).1 ≡ part w

module _ {X A : Type 0} {part : World → X} where
  pub Keeps-pure : (a : A) → Keeps part (pure a)
  Keeps-pure a = record { at = λ w. refl }

  pub Keeps-throw : (e : Error) → Keeps part (throw {A = A} e)
  Keeps-throw e = record { at = λ w. refl }

  pub Keeps-try : (m : M A) → Keeps part m → Keeps part (try m)
  Keeps-try m h = record { at = h.at }

  pub Keeps-if :
      (b : Bool) (m k : M A) → Keeps part m → Keeps part k → Keeps part (if b then m else k)
  Keeps-if true m k h l = h
  Keeps-if false m k h l = l

module _ {X A B : Type 0} {part : World → X} where
  Keeps-continue :
      (r : Result A) (f : A → M B) (w : World)
      → ((a : A) → Keeps part (f a))
      → part (continue r f w).1 ≡ part w
  Keeps-continue (ok a) f w h = (h a).at w
  Keeps-continue (err x) f w h = refl

  pub Keeps-bind :
      (m : M A) (f : A → M B) → Keeps part m → ((a : A) → Keeps part (f a)) → Keeps part (m >>= f)
  Keeps-bind m f h k = record { at = λ w. Keeps-continue (m w).0 f (m w).1 k ∙ h.at w }

pub ruleset keeps_rules = (Keeps-pure, Keeps-throw, Keeps-try, Keeps-bind)

-- What is computed from a part that is kept is kept.
pub Keeps-map :
    {X Y A : Type 0} {part : World → X} (g : X → Y) (m : M A)
    → Keeps part m
    → Keeps (λ w. g (part w)) m
Keeps-map g m h = record { at = λ w. ap g (h.at w) }
