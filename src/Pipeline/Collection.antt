-- ===== src/Pipeline/Collection.antt =====
-- `build_manifest_artifacts` of manifest_artifacts.py over all planned runs. A mapping is an
-- association list with the newest key last; an entry of the artifacts is the list of its texts.
pub mod Complete
pub mod Observed
pub mod Whole
mod Tests
use repchat.Prelude.{
  ℕ, String, Bool, true, false, not, ◌&&◌, Option, none, some, List, [], ◌∷◌, ◌++◌, map, all,
  any_of, if◌then◌else◌,
}
use text.Mathlib.Text.{◌==◌ as str_eq}
use repchat.Pipeline.Attempts.{Snapshot, Contract, RenderingAttempt}
use repchat.Pipeline.Recording.{Recording, Measurement}
use repchat.Pipeline.Artifacts.{
  ArtifactError, attempts_mismatch, measurements_mismatch, measurement_invalid, snapshot_changed,
  contract_changed, Artifact, built, refused, Entry, preflight_of, build_entry,
}

abbrev pub Texts : Type 0
Texts = List String

abbrev pub texts_eq : Texts → Texts → Bool
texts_eq [] [] = true
texts_eq (s ∷ ss) (t ∷ ts) = str_eq s t && texts_eq ss ts
texts_eq _ _ = false

-- A mapping from keys of texts.
abbrev pub Table : Type 0 → Type 0
Table A = List (Texts × A)

abbrev pub at_key : {A : Type 0} → Bool → A → Option A → Option A
at_key true a rest = some a
at_key false a rest = rest

-- `target.get(key)`
abbrev pub get_key : {A : Type 0} → Texts → Table A → Option A
get_key k [] = none
get_key k ((l, a) ∷ t) = at_key (texts_eq l k) a (get_key k t)

abbrev pub keys_of : {A : Type 0} → Table A → List Texts
keys_of [] = []
keys_of ((l, a) ∷ t) = l ∷ keys_of t

-- `_identity(attempt)`
abbrev pub identity_of : RenderingAttempt → Texts
identity_of a = (preflight_of a).schema_id ∷ (preflight_of a).case_id ∷ (preflight_of a).run_id ∷ []

abbrev pub contains_key : List Texts → Texts → Bool
contains_key ks k = any_of (λ l. texts_eq l k) ks

-- `observed`, from the attempts so far; `none` is an attempt of an identity that is there already.
unfoldable pub observe_attempts :
    List RenderingAttempt → Table RenderingAttempt → Option (Table RenderingAttempt)
observe_attempts [] t = some t
observe_attempts (a ∷ rest_of) t =
    let rest = observe_attempts rest_of (t ++ (identity_of a, a) ∷ []) in
    if contains_key (keys_of t) (identity_of a) then none else rest

-- `set(keys) == set(planned_ids)`
abbrev pub same_keys : List Texts → List Texts → Bool
same_keys ks ls = all (contains_key ls) ks && all (contains_key ks) ls

-- The artifacts that the loop has so far.
pub record Collection : Type 0 where
  pub runs : List Recording
  pub snapshots : Table Texts
  pub contracts : Table Texts

abbrev pub keep_same : Bool → Table Texts → ArtifactError → Artifact (Table Texts)
keep_same true t e = built t
keep_same false t e = refused e

abbrev pub retain :
    Option Texts → Table Texts → Texts → Texts → ArtifactError → Artifact (Table Texts)
retain none t k v e = built (t ++ (k, v) ∷ [])
retain (some w) t k v e = keep_same (texts_eq w v) t e

-- `_retain_unique(target, key, entry, message)`; an equal entry leaves the target as it is.
abbrev pub retain_unique : Table Texts → Texts → Texts → ArtifactError → Artifact (Table Texts)
retain_unique t k v e = retain (get_key k t) t k v e

abbrev pub snapshot_texts : Snapshot → Texts
snapshot_texts d = d.content_json ∷ d.retrieved_at ∷ []

abbrev pub contract_texts : Contract → Texts
contract_texts c = c.content_json ∷ []

-- An artifact of a run, if the loop keeps one.
abbrev pub retain_optional :
    {A : Type 0}
    → (A → Texts)
    → Option A
    → Table Texts
    → Texts
    → ArtifactError
    → Artifact (Table Texts)
retain_optional f none t k e = built t
retain_optional f (some a) t k e = retain_unique t k (f a) e

abbrev pub then_artifact : {A B : Type 0} → Artifact A → (A → Artifact B) → Artifact B
then_artifact (built a) f = f a
then_artifact (refused e) f = refused e

-- What the loop does with the entry of one run.
unfoldable pub add_artifacts : Entry → Collection → Artifact Collection
add_artifacts e c =
    then_artifact
      (retain_optional snapshot_texts e.snapshot c.snapshots (e.recording.schema_id ∷ [])
        snapshot_changed)
      (λ s.
        then_artifact
          (retain_optional contract_texts e.contract c.contracts
            (e.recording.schema_id ∷ e.recording.case_id ∷ []) contract_changed)
          (λ k. built (record { runs = c.runs ++ e.recording ∷ []; snapshots = s; contracts = k })))

-- One round; a measurement is `none` where `_measurement` refuses it.
abbrev pub add_run :
    Option RenderingAttempt → Option (Option Measurement) → Collection → Artifact Collection
add_run (some a) (some (some m)) c = then_artifact (build_entry a m) (λ e. add_artifacts e c)
add_run (some a) (some none) c = refused measurement_invalid
add_run (some a) none c = refused measurements_mismatch
add_run none m c = refused attempts_mismatch

module _ (observed : Table RenderingAttempt) (measurements : Table (Option Measurement)) where
  -- The loop over the planned identities.
  unfoldable pub collect : List Texts → Collection → Artifact Collection
  collect [] c = built c
  collect (i ∷ is) c =
      then_artifact (add_run (get_key i observed) (get_key i measurements) c) (λ d. collect is d)

abbrev pub no_artifacts : Collection
no_artifacts = record { runs = []; snapshots = []; contracts = [] }

abbrev pub collect_observed :
    List Texts → Table (Option Measurement) → Option (Table RenderingAttempt) → Artifact Collection
collect_observed planned measurements none = refused attempts_mismatch
collect_observed planned measurements (some observed) =
    if not (same_keys (keys_of observed) planned)
    then refused attempts_mismatch
    else if not (same_keys (keys_of measurements) planned)
    then refused measurements_mismatch
    else collect observed measurements planned no_artifacts

-- `build_manifest_artifacts(manifest, attempts, measurements)`, with the planned identities.
unfoldable pub build_manifest_artifacts :
    List Texts → List RenderingAttempt → Table (Option Measurement) → Artifact Collection
build_manifest_artifacts planned attempts measurements =
    collect_observed planned measurements (observe_attempts attempts [])
