-- ===== src/Prelude/Strings.antt =====
-- Prefixes of native strings, as strings.HasPrefix and strings.TrimPrefix of Go read them.
use Prim.Native.String.{String, ◌++◌ as ◌<>◌}
use Prim.Native.Char.{Char, code}
use mathlib.Core.Path.{◌≡◌, refl, ap}
use mathlib.Core.Bool.{Bool, true, false}
use mathlib.Core.Logic.{inl, inr}
use mathlib.Core.Option.{Option, none, some}
use native.Mathlib.Omega.{arith}
use text.Mathlib.TextLemmas.{nil-append, cons-append}
use text.Mathlib.TextEquality.{Char-path}
use microservice_diagnosis.Prelude.Tests.{◌==◌, ==_iff, if◌then◌else◌, Bool-cases}

-- What is left of a text behind a prefix, if it has it.
unfoldable pub after_prefix : String → String → Option String
after_prefix String.[] t = some t
after_prefix (String.◌∷◌ p ps) String.[] = none
after_prefix (String.◌∷◌ p ps) (String.◌∷◌ c cs) =
    let rest = after_prefix ps cs in if code p == code c then rest else none

code-== : (c : Char) → (code c == code c) ≡ true
code-== c = (==_iff (code c) (code c)).1 refl

pub after_prefix-append : (p t : String) → after_prefix p (p <> t) ≡ some t
unfolding after_prefix
after_prefix-append String.[] t = ap some (nil-append t)
after_prefix-append (String.◌∷◌ p ps) t =
    rw (cons-append p ps t, code-== p) (after_prefix-append ps t)

pub after_prefix-some : (p t r : String) → after_prefix p t ≡ some r → t ≡ p <> r
unfolding after_prefix
after_prefix-some String.[] t r h = cc (nil-append r)
after_prefix-some (String.◌∷◌ p ps) String.[] r h = cc
after_prefix-some (String.◌∷◌ p ps) (String.◌∷◌ c cs) r h = elim (Bool-cases (code p == code c)) [
  | inl e ↦
      let tail : cs ≡ ps <> r = after_prefix-some ps cs r (ground arith) in
      cc (cons-append p ps r, Char-path p c ((==_iff (code p) (code c)).0 e), tail)
  | inr e ↦ ground arith
]

abbrev pub is_some {ℓ} : {A : Type ℓ} → Option A → Bool
is_some none = false
is_some (some a) = true

-- strings.HasPrefix(t, p).
abbrev pub has_prefix : String → String → Bool
has_prefix t p = is_some (after_prefix p t)

abbrev pub or_whole : String → Option String → String
or_whole t none = t
or_whole t (some rest) = rest

-- strings.TrimPrefix(t, p).
abbrev pub trim_prefix : String → String → String
trim_prefix t p = or_whole t (after_prefix p t)

-- Two texts that differ at a place that both have.
abbrev pub clash : String → String → Bool
clash String.[] q = false
clash (String.◌∷◌ c p) String.[] = false
clash (String.◌∷◌ c p) (String.◌∷◌ d q) = if code c == code d then clash p q else true

pub after_prefix-clash : (p q t : String) → clash p q ≡ true → after_prefix p (q <> t) ≡ none
unfolding after_prefix
after_prefix-clash String.[] q t h = cc
after_prefix-clash (String.◌∷◌ c p) String.[] t h = cc
after_prefix-clash (String.◌∷◌ c p) (String.◌∷◌ d q) t h = elim (Bool-cases (code c == code d)) [
  | inl e ↦ rw (cons-append d q t, e) (after_prefix-clash p q t (ground arith))
  | inr e ↦ rw (cons-append d q t, e) refl
]
