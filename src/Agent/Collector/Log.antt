-- ===== src/Agent/Collector/Log.antt =====
-- internal/agent/log.go: LogAgent, with the patterns that detectLogPatterns finds. The order in which
-- Go goes through a map, and the JSON codec of the details, are parameters.
pub mod Counts
use microservice_diagnosis.Prelude.{
  ℕ, suc, ◌+◌, String, Bool, true, false, Option, none, some, List, [], ◌∷◌, ◌++◌, map, str_eq,
  ◌&&◌, ◌||◌, ◌==◌, ltb, if◌then◌else◌,
}
use microservice_diagnosis.Store.Rows.{Time}
use microservice_diagnosis.Agent.Observation.{
  EvidenceType, log_evidence, Severity, error, fatal, within, Observation,
}
use microservice_diagnosis.Agent.Rca.{severity_number}
use microservice_diagnosis.Agent.Collector.{Finding, Collector}

-- FirstSeen and LastSeen are the same time.
pub record LogPattern : Type 0 where
  pub name : String
  pub count : ℕ
  pub first_seen : Option Time
  pub last_seen : Option Time
  pub severity : Severity
  pub target_service : String
  pub correlations : List (String × String)
  pub labels : List (String × String)

abbrev pub is_log : EvidenceType → Bool
is_log log_evidence = true
is_log _ = false

-- The logs of a key of `groups`, which are never none.
pub record Group : Type 0 where
  pub first : Observation
  pub others : List Observation

abbrev pub logs_of : Group → List Observation
logs_of g = g.first ∷ g.others

-- The key is the service and the name of the severity, with a colon between them.
abbrev pub same_key : Observation → Observation → Bool
same_key a b =
    str_eq a.target_service b.target_service
    && severity_number a.severity == severity_number b.severity

unfoldable pub add_log : Observation → List Group → List Group
add_log l [] = (record { first = l; others = [] }) ∷ []
add_log l (g ∷ gs) =
    let rest = add_log l gs in
    if same_key g.first l then (record g { others = g.others ++ l ∷ [] }) ∷ gs else g ∷ rest

unfoldable pub group_logs : List Observation → List Group → List Group
group_logs [] gs = gs
group_logs (l ∷ ls) gs = group_logs ls (add_log l gs)

abbrev pub is_error : Severity → Bool
is_error error = true
is_error fatal = true
is_error _ = false

unfoldable pub count_errors : List Observation → ℕ
count_errors [] = 0
count_errors (l ∷ ls) = if is_error l.severity then count_errors ls + 1 else count_errors ls

abbrev later : Option Time → Option Time → Option Time
later none last = last
later (some t) last = some t

-- The time of the last log that has one, or the one before.
abbrev latest : List Observation → Option Time → Option Time
latest [] last = last
latest (l ∷ ls) last = latest ls (later l.timestamp last)

abbrev trace_of : List (String × String) → Option String
trace_of [] = none
trace_of ((key, value) ∷ more) =
    let rest = trace_of more in if str_eq key "trace_id" then some value else rest

abbrev or_else : Option String → Option String → Option String
or_else none b = b
or_else (some a) b = some a

-- The trace of the first log that has one.
abbrev first_trace : List Observation → Option String
first_trace [] = none
first_trace (l ∷ ls) = or_else (trace_of l.correlations) (first_trace ls)

abbrev trace_correlation : Option String → List (String × String)
trace_correlation none = []
trace_correlation (some t) = ("trace_id", t) ∷ []

abbrev pub grade : ℕ → Severity
grade errors = if ltb 5 errors then fatal else error

module _ (show : ℕ → String) where
  -- `show n` is the text of fmt.Sprintf("error_count=%d", n).
  abbrev pub pattern_of : Group → LogPattern
  pattern_of g = record {
    name = show (count_errors (logs_of g));
    count = count_errors (logs_of g);
    first_seen = latest (logs_of g) none;
    last_seen = latest (logs_of g) none;
    severity = grade (count_errors (logs_of g));
    target_service = g.first.target_service;
    correlations = trace_correlation (first_trace (logs_of g));
    labels = g.first.labels;
  }

  unfoldable pub patterns_of : List Group → List LogPattern
  patterns_of [] = []
  patterns_of (g ∷ gs) =
      let rest = patterns_of gs in
      if count_errors (logs_of g) == 0 then rest else pattern_of g ∷ rest

  -- `detectLogPatterns`; `order` is the order in which the map of groups is gone through.
  unfoldable pub detect_log_patterns :
      (List Group → List Group) → List Observation → List LogPattern
  detect_log_patterns order logs = patterns_of (order (group_logs logs []))

  -- The pattern that is made up for a collect command.
  abbrev synthetic_pattern : Time → Time → Observation → LogPattern
  synthetic_pattern first last o = record {
    name = "slow_query_detected";
    count = 10;
    first_seen = some first;
    last_seen = some last;
    severity = error;
    target_service = o.target_service;
    correlations = [];
    labels = o.labels;
  }

  abbrev finding_of : ℕ → (LogPattern → Option String) → LogPattern → Finding
  finding_of confidence encode p = record {
    confidence = within confidence;
    severity = p.severity;
    target_service = p.target_service;
    fix_action_id = none;
    correlations = p.correlations;
    detail = encode p;
    labels = p.labels;
  }

  -- The two times are those that the made-up pattern says; the confidences are 0.75 and 0.7.
  abbrev pub log_agent :
      (List Group → List Group) → Time → Time → (LogPattern → Option String) → Collector
  log_agent order first last encode = record {
    name = "agent-log";
    type = log_evidence;
    is_input = is_log;
    sub_type = "log_pattern";
    synthetic = λ o. finding_of 4604930618986332160 encode (synthetic_pattern first last o);
    find = λ ls. map (finding_of 4604480259023595110 encode) (detect_log_patterns order ls);
    skips_undetailed = true;
  }
