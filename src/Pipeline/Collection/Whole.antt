-- ===== src/Pipeline/Collection/Whole.antt =====
-- The loop of `build_manifest_artifacts` records every planned run.
use mathlib.Core.Path.{subst}
use mathlib.Core.List.{append-nil, append_assoc}
use repchat.Prelude.{
  ◌≡◌, ◌∙◌, refl, sym, ap, inl, inr, Option, none, some, List, [], ◌∷◌, ◌++◌, Bool-cases,
}
use repchat.Pipeline.Attempts.{RenderingAttempt}
use repchat.Pipeline.Recording.{Recording, Measurement}
use repchat.Pipeline.Artifacts.{
  Artifact, built, refused, Entry, build_entry, snapshot_changed, contract_changed,
}
use repchat.Pipeline.Collection.{
  Texts, Table, get_key, keys_of, observe_attempts, same_keys, Collection, snapshot_texts,
  contract_texts, then_artifact, add_artifacts, add_run, collect, no_artifacts, collect_observed,
  build_manifest_artifacts,
}
use repchat.Pipeline.Collection.Observed.{
  under_identities, AreDistinct, Within, observe_attempts-AreDistinct,
  observe_attempts-under_identities, same_keys-Within,
}
use repchat.Pipeline.Collection.Complete.{
  Retains, IsRecorded, AreRecorded, no_runs, next_run, Grows, retain_optional-Grows,
  built-injective,
}

then_artifact-built :
    {A B : Type 0} (x : Artifact A) (f : A → Artifact B) (y : B)
    → then_artifact x f ≡ built y
    → (a : A) × (x ≡ built a) × (f a ≡ built y)
then_artifact-built (built a) f y h = (a, refl, h)
then_artifact-built (refused e) f y h = cc

-- One collection has all that another has retained.
Extends : Collection → Collection → Type 0
Extends c d = Grows c.snapshots d.snapshots × Grows c.contracts d.contracts

Extends-trans : (c d e : Collection) → Extends c d → Extends d e → Extends c e
unfolding Extends Grows
Extends-trans c d e (s, k) (s', k') = ((λ l v h. s' l v (s l v h)), λ l v h. k' l v (k l v h))

Retains-Grows :
    {A : Type 0} (f : A → Texts) (t t' : Table Texts) (k : Texts) (o : Option A)
    → Grows t t'
    → Retains f t k o
    → Retains f t' k o
unfolding Grows
Retains-Grows f t t' k none g h = tt
Retains-Grows f t t' k (some a) g h = g k (f a) h

-- A collection after one more entry.
record IsAdded (e : Entry) (c d : Collection) : Type 0 where
  runs : d.runs ≡ c.runs ++ e.recording ∷ []
  extends : Extends c d
  snapshot : Retains snapshot_texts d.snapshots (e.recording.schema_id ∷ []) e.snapshot
  contract :
      Retains contract_texts d.contracts
        (e.recording.schema_id ∷ e.recording.case_id ∷ [])
        e.contract

add_artifacts-IsAdded : (e : Entry) (c d : Collection) → add_artifacts e c ≡ built d → IsAdded e c d
unfolding add_artifacts Extends
add_artifacts-IsAdded e c d h =
    let (s, p, h1) = then_artifact-built _ _ d h in
    let (k, q, h2) = then_artifact-built _ _ d h1 in
    let (grows, kept) =
      retain_optional-Grows snapshot_texts e.snapshot c.snapshots s (e.recording.schema_id ∷ [])
        snapshot_changed p in
    let (grows', kept') =
      retain_optional-Grows contract_texts e.contract c.contracts k
        (e.recording.schema_id ∷ e.recording.case_id ∷ []) contract_changed q in
    rw (← built-injective _ d h2)
      (record { runs = refl; extends = (grows, grows'); snapshot = kept; contract = kept' })

module _ (observed : Table RenderingAttempt) (measurements : Table (Option Measurement)) where
  IsRecorded-Extends :
      (c d : Collection) (i : Texts) (r : Recording)
      → Extends c d
      → IsRecorded observed measurements c i r
      → IsRecorded observed measurements d i r
  unfolding Extends
  IsRecorded-Extends c d i r (s, k) h = record {
    attempt = h.attempt;
    measurement = h.measurement;
    entry = h.entry;
    attempted = h.attempted;
    measured = h.measured;
    made = h.made;
    recorded = h.recorded;
    snapshot =
        Retains-Grows snapshot_texts c.snapshots d.snapshots (r.schema_id ∷ []) h.entry.snapshot s
          h.snapshot;
    contract =
        Retains-Grows contract_texts c.contracts d.contracts (r.schema_id ∷ r.case_id ∷ [])
          h.entry.contract k h.contract;
  }

  -- One round records its run.
  Recorded : Texts → Collection → Collection → Type 0
  Recorded i c d =
      (r : Recording) × (d.runs ≡ c.runs ++ r ∷ [])
      × Extends c d
      × IsRecorded observed measurements d i r

  add_run-Recorded :
      (i : Texts) (a : Option RenderingAttempt) (m : Option (Option Measurement)) (c d : Collection)
      → get_key i observed ≡ a
      → get_key i measurements ≡ m
      → add_run a m c ≡ built d
      → Recorded i c d
  unfolding Recorded
  add_run-Recorded i (some a) (some (some m)) c d p q h =
      let (e, made, h1) = then_artifact-built (build_entry a m) _ d h in
      let added = add_artifacts-IsAdded e c d h1 in
      (
        e.recording,
        added.runs,
        added.extends,
        record {
          attempt = a;
          measurement = m;
          entry = e;
          attempted = p;
          measured = q;
          made = made;
          recorded = refl;
          snapshot = added.snapshot;
          contract = added.contract;
        },
      )
  add_run-Recorded i (some a) (some none) c d p q h = cc
  add_run-Recorded i (some a) none c d p q h = cc
  add_run-Recorded i none m c d p q h = cc

  -- The runs that the loop adds.
  Collected : List Texts → Collection → Collection → Type 0
  Collected is c d =
      (rs : List Recording) × (d.runs ≡ c.runs ++ rs)
      × Extends c d
      × AreRecorded (IsRecorded observed measurements d) is rs

  collect-Collected :
      (is : List Texts) (c d : Collection)
      → collect observed measurements is c ≡ built d
      → Collected is c d
  unfolding collect Collected Recorded Extends Grows
  collect-Collected [] c d h =
      let same = built-injective c d h in
      rw (← same) ([], sym (append-nil c.runs), ((λ k v g. g), (λ k v g. g)), no_runs)
  collect-Collected (i ∷ is) c d h =
      let (b, step_, h1) =
        then_artifact-built (add_run (get_key i observed) (get_key i measurements) c) _ d h in
      let (r, one, grows, good) =
        add_run-Recorded i (get_key i observed) (get_key i measurements) c b refl refl step_ in
      let (rs, rest, grows', all_good) = collect-Collected is b d h1 in
      (
        r ∷ rs,
        rest ∙ (ap (λ x. x ++ rs) one ∙ append_assoc c.runs (r ∷ []) rs),
        Extends-trans c b d grows grows',
        next_run (IsRecorded-Extends b d i r grows' good) all_good,
      )

-- What the artifacts of an evaluation come from: no two attempts have one identity; the identities
-- of the attempts are exactly the planned ones, and so are the keys of the measurements; and there
-- is one recording for each planned run, of the attempt under its identity and of its measurement.
pub record IsWhole (planned : List Texts) (attempts : List RenderingAttempt)
    (measurements : Table (Option Measurement)) (c : Collection) : Type 0 where
  pub distinct : AreDistinct attempts
  pub attempts_planned : Within (keys_of (under_identities attempts)) planned
  pub planned_attempted : Within planned (keys_of (under_identities attempts))
  pub measurements_planned : Within (keys_of measurements) planned
  pub planned_measured : Within planned (keys_of measurements)
  pub recorded : AreRecorded (IsRecorded (under_identities attempts) measurements c) planned c.runs

collect_observed-IsWhole :
    (planned : List Texts) (attempts : List RenderingAttempt)
    (measurements : Table (Option Measurement)) (o : Option (Table RenderingAttempt))
    (c : Collection)
    → observe_attempts attempts [] ≡ o
    → collect_observed planned measurements o ≡ built c
    → IsWhole planned attempts measurements c
unfolding Collected
collect_observed-IsWhole planned attempts measurements none c e h = cc
collect_observed-IsWhole planned attempts measurements (some observed) c e h =
    elim (Bool-cases (same_keys (keys_of observed) planned)) [
      | inr k ↦ absurd (let h' = rw k at h in cc)
      | inl k ↦ elim (Bool-cases (same_keys (keys_of measurements) planned)) [
        | inr l ↦ absurd (let h' = rw l at (rw k at h) in cc)
        | inl l ↦
            let (rs, all_runs, _, good) =
              collect-Collected observed measurements planned no_artifacts c
                (rw l at (rw k at h)) in
            let same = observe_attempts-under_identities attempts observed e in
            let (there, back) =
              same_keys-Within (keys_of (under_identities attempts)) planned (rw same at k) in
            let (there', back') = same_keys-Within (keys_of measurements) planned l in
            record {
              distinct = observe_attempts-AreDistinct attempts [] observed e;
              attempts_planned = there;
              planned_attempted = back;
              measurements_planned = there';
              planned_measured = back';
              recorded =
                  subst (λ x. AreRecorded (IsRecorded x measurements c) planned c.runs) same
                    (subst (λ ys. AreRecorded (IsRecorded observed measurements c) planned ys)
                      (sym all_runs) good);
            }
      ]
    ]

-- Where the artifacts of an evaluation are built, no two attempts have one identity, the identities
-- of the attempts and the keys of the measurements are exactly the planned ones, and the recordings
-- are, in the planned order, one for each planned run, built from the attempt under its identity
-- and from its measurement. The artifacts hold the snapshot and the contract of each run under its
-- schema and its case, so runs of one schema have the same snapshot, and runs of one case the same
-- contract.
pub build_manifest_artifacts-IsWhole :
    (planned : List Texts) (attempts : List RenderingAttempt)
    (measurements : Table (Option Measurement)) (c : Collection)
    → build_manifest_artifacts planned attempts measurements ≡ built c
    → IsWhole planned attempts measurements c
unfolding build_manifest_artifacts
build_manifest_artifacts-IsWhole planned attempts measurements c h =
    collect_observed-IsWhole planned attempts measurements (observe_attempts attempts []) c refl h
