-- ===== src/Evaluation/Validation.antt =====
-- The validators of evaluate.py that run before a bundle is scored.
use repchat.Prelude.{
  String, Bool, true, false, not, ◌&&◌, Option, none, some, List, [], ◌∷◌, ◌++◌, leb, map, all,
  any_of, length,
}
use text.Mathlib.Text.{◌==◌ as str_eq}
use repchat.Text.{is_blank, is_sha256}
use repchat.Outcome.{
  Stage, scope_discovery, analysis_contract_generation, Run, RuntimeInput, Fingerprints, Verdict,
  accepted, rejected, validate_run_outcome, validate_failure_kind,
}
use repchat.Outcome.Diagnosed.{validate_recorded_diagnostic}
use repchat.Evaluation.{
  Capability, nested_unnest, multi_level_nesting, join, period_comparison, window_function,
  ordered_behavior, Case, Schema, Thresholds, Bundle,
}

abbrev pub is_accepted : Verdict → Bool
is_accepted accepted = true
is_accepted (rejected f) = false

-- No text occurs twice: a set of them has as many elements.
abbrev pub is_distinct : List String → Bool
is_distinct [] = true
is_distinct (s ∷ ss) = not (any_of (str_eq s) ss) && is_distinct ss

abbrev pub same_capability : Capability → Capability → Bool
same_capability nested_unnest nested_unnest = true
same_capability multi_level_nesting multi_level_nesting = true
same_capability join join = true
same_capability period_comparison period_comparison = true
same_capability window_function window_function = true
same_capability ordered_behavior ordered_behavior = true
same_capability _ _ = false

abbrev pub required_capabilities : List Capability
required_capabilities =
    join ∷ multi_level_nesting ∷ nested_unnest ∷ ordered_behavior ∷ period_comparison
    ∷ window_function ∷ []

abbrev pub has_capability : Capability → Case → Bool
has_capability k c = any_of (same_capability k) c.capabilities

abbrev are_distinct : List Capability → Bool
are_distinct [] = true
are_distinct (k ∷ ks) = not (any_of (same_capability k) ks) && are_distinct ks

abbrev is_empty_list {ℓ} : {A : Type ℓ} → List A → Bool
is_empty_list [] = true
is_empty_list (x ∷ xs) = false

-- `validate_schema_capabilities(cases)`
abbrev pub validate_schema_capabilities : List Case → Bool
validate_schema_capabilities cs =
    all (λ c. not (is_empty_list c.capabilities) && are_distinct c.capabilities) cs
    && all (λ k. any_of (has_capability k) cs) required_capabilities

abbrev pub validate_schema : Schema → Bool
validate_schema s =
    not (is_blank s.schema_id)
    && not (is_empty_list s.cases)
    && all (λ c. not (is_blank c.case_id) && not (is_blank c.question)) s.cases
    && is_distinct (map (λ (c : Case). c.case_id) s.cases)
    && validate_schema_capabilities s.cases

-- `_validate_structure(bundle)`
abbrev pub validate_structure : Bundle → Bool
validate_structure b =
    leb 2 (length b.schemas)
    && all validate_schema b.schemas
    && is_distinct (map (λ (s : Schema). s.schema_id) b.schemas)
    && is_distinct (map (λ (s : Schema). s.scope_snapshot_fingerprint) b.schemas)

-- `_validate_thresholds(bundle)`: at least 3 runs and a rate from 0.9 to 1.
abbrev pub validate_thresholds : Thresholds → Bool
validate_thresholds t =
    leb 3 t.minimum_runs_per_case
    && leb 900000 t.minimum_result_match_rate
    && leb t.minimum_result_match_rate 1000000

-- `_validate_references(bundle)`
abbrev pub validate_reference : Case → Bool
validate_reference c =
    not (is_blank c.reference.sql)
    && not (is_blank c.reference.author_id)
    && not (is_blank c.reference.reviewer_id)
    && not (is_blank c.reference.reviewed_at)

abbrev pub validate_run : Run → Bool
validate_run r =
    not (is_blank r.run_id)
    && is_accepted (validate_run_outcome r)
    && is_accepted (validate_recorded_diagnostic r)
    && is_accepted (validate_failure_kind r)

-- `_validate_runs(bundle)`, of one case.
abbrev pub validate_runs : Case → Bool
validate_runs c = is_distinct (map (λ (r : Run). r.run_id) c.runs) && all validate_run c.runs

abbrev pub is_text : Option String → String → Bool
is_text none s = false
is_text (some t) s = str_eq t s

abbrev pub is_missing : Option String → Bool
is_missing none = true
is_missing (some s) = false

abbrev pub is_fingerprint_text : Option String → Bool
is_fingerprint_text none = false
is_fingerprint_text (some s) = is_sha256 s

abbrev pub inputs_fit : Stage → String → RuntimeInput → Bool
inputs_fit scope_discovery scope i =
    is_missing i.scope_snapshot_fingerprint && is_missing i.analysis_contract_fingerprint
inputs_fit analysis_contract_generation scope i =
    is_text i.scope_snapshot_fingerprint scope && is_missing i.analysis_contract_fingerprint
inputs_fit _ scope i =
    is_text i.scope_snapshot_fingerprint scope
    && is_fingerprint_text i.analysis_contract_fingerprint

-- The contract fingerprints of the runs that came past the preflight.
abbrev contract_of : Stage → Option String → List String
contract_of scope_discovery o = []
contract_of analysis_contract_generation o = []
contract_of _ none = []
contract_of _ (some s) = s ∷ []

abbrev contracts : List Run → List String
contracts [] = []
contracts (r ∷ rs) =
    contract_of r.failure_stage r.runtime_input.analysis_contract_fingerprint ++ contracts rs

-- A set of these has at most one element.
abbrev all_same : List String → Bool
all_same [] = true
all_same (s ∷ ss) = all (str_eq s) ss

abbrev pub validate_input : String → Case → Run → Bool
validate_input scope c r =
    str_eq r.runtime_input.question c.question && inputs_fit r.failure_stage scope r.runtime_input

-- `_validate_runtime_inputs(bundle)`, of one schema.
abbrev pub validate_runtime_inputs : Schema → Bool
validate_runtime_inputs s =
    is_sha256 s.scope_snapshot_fingerprint
    && all
        (λ c.
          all (validate_input s.scope_snapshot_fingerprint c) c.runs && all_same (contracts c.runs))
        s.cases

abbrev pub all_runs : List Case → List Run
all_runs [] = []
all_runs (c ∷ cs) = c.runs ++ all_runs cs

abbrev pub bundle_runs : List Schema → List Run
bundle_runs [] = []
bundle_runs (s ∷ ss) = all_runs s.cases ++ bundle_runs ss

abbrev same_fingerprints : Fingerprints → Fingerprints → Bool
same_fingerprints f g =
    str_eq f.runtime g.runtime && str_eq f.prompt g.prompt && str_eq f.configuration g.configuration

abbrev pub one_fingerprint : List Run → Bool
one_fingerprint [] = false
one_fingerprint (r ∷ rs) = all (λ (q : Run). same_fingerprints r.fingerprints q.fingerprints) rs

-- `_validate_fingerprints(bundle)`
abbrev pub validate_fingerprints : Bundle → Bool
validate_fingerprints b =
    all
      (λ (r : Run).
        is_sha256 r.fingerprints.runtime
        && is_sha256 r.fingerprints.prompt
        && is_sha256 r.fingerprints.configuration)
      (bundle_runs b.schemas)
    && one_fingerprint (bundle_runs b.schemas)

-- The seven calls of `evaluate_bundle` that may raise.
unfoldable pub validate_bundle : Bundle → Bool
unfolding validate_run_outcome validate_recorded_diagnostic validate_failure_kind
validate_bundle b =
    validate_structure b
    && validate_thresholds b.thresholds
    && all (λ s. all validate_reference s.cases) b.schemas
    && all (λ s. all validate_runs s.cases) b.schemas
    && all validate_runtime_inputs b.schemas
    && validate_fingerprints b
