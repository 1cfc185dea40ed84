-- ===== src/Server/Evidence.antt =====
-- internal/server/event_loop.go: the payload of an observation and normalizeType. A text is the list
-- of its code points; the letters that `strings.ToUpper` changes are those of ASCII here, which are
-- all that the names of the evidence types have.
use Prim.Native.Char.{code}
use microservice_diagnosis.Prelude.{
  ℕ, ◌-◌, String, Bool, ◌&&◌, List, [], ◌∷◌, map, Option, none, some, ◌==◌, leb, if◌then◌else◌,
  true, false,
}

abbrev pub Text : Type 0
Text = List ℕ

abbrev pub codes : String → Text
codes String.[] = []
codes (String.◌∷◌ c s) = code c ∷ codes s

abbrev same_text : Text → Text → Bool
same_text [] [] = true
same_text (a ∷ as') (b ∷ bs) = a == b && same_text as' bs
same_text _ _ = false

-- What is left of `t` behind the prefix, if it has it.
abbrev after_prefix : Text → Text → Option Text
after_prefix [] t = some t
after_prefix (p ∷ ps) [] = none
after_prefix (p ∷ ps) (c ∷ cs) = let rest = after_prefix ps cs in if p == c then rest else none

abbrev or_whole : Text → Option Text → Text
or_whole t none = t
or_whole t (some rest) = rest

-- strings.TrimPrefix(t, prefix).
unfoldable trim_prefix : Text → Text → Text
trim_prefix prefix t = or_whole t (after_prefix prefix t)

unfoldable pub upper : ℕ → ℕ
upper c = if leb b'a' c && leb c b'z' then c - 32 else c

unfoldable normalize_type : Text → Text
unfolding trim_prefix upper
normalize_type t = map upper (trim_prefix (codes "EVIDENCE_TYPE_") t)

-- The fields of observationPayload that the loop reads.
pub record ObservationPayload : Type 0 where
  pub session_id : String
  pub type_name : Text
  pub target_service : String

pub data Kind : Type 0 where
  collected rca_result fix_action unknown : Kind

-- The comparisons of the normalized type that `handleObservation` makes; LOG, METRIC and TRACE are
-- treated alike.
unfoldable pub kind_of : Text → Kind
unfolding normalize_type
kind_of t =
    let u = normalize_type t in
    if same_text u (codes "LOG")
    then collected
    else if same_text u (codes "METRIC")
    then collected
    else if same_text u (codes "TRACE")
    then collected
    else if same_text u (codes "RCA_RESULT")
    then rca_result
    else if same_text u (codes "FIX_ACTION")
    then fix_action
    else unknown
