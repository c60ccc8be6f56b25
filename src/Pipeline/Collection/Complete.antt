-- ===== src/Pipeline/Collection/Complete.antt =====
-- What the artifacts of a whole evaluation hold.
use mathlib.Core.Path.{ap₂}
use repchat.Prelude.{
  ◌≡◌, ◌∙◌, refl, ap, inl, inr, Bool, true, false, ◌&&◌, Option, none, some, List, [], ◌∷◌, ◌++◌,
  Bool-cases,
}
use text.Mathlib.Text.{◌==◌ as str_eq}
use text.Mathlib.TextEquality.{eq_iff}
use repchat.Pipeline.Attempts.{RenderingAttempt}
use repchat.Pipeline.Recording.{Recording, Measurement}
use repchat.Pipeline.Artifacts.{ArtifactError, built, Entry, build_entry}
use repchat.Pipeline.Collection.{
  Texts, texts_eq, Table, get_key, Collection, retain, snapshot_texts, contract_texts,
  retain_optional,
}

-- The table has the artifact of a run, if the run has one, under its key.
abbrev pub Retains : {A : Type 0} → (A → Texts) → Table Texts → Texts → Option A → Type 0
Retains f t k none = Unit {0}
Retains f t k (some a) = get_key k t ≡ some (f a)

-- The recording of a planned run: its entry is built from the attempt and the measurement of that
-- identity, and the artifacts retain the entry's snapshot and contract.
pub record IsRecorded (observed : Table RenderingAttempt)
    (measurements : Table (Option Measurement)) (c : Collection) (i : Texts) (r : Recording)
    : Type 0 where
  pub attempt : RenderingAttempt
  pub measurement : Measurement
  pub entry : Entry
  pub attempted : get_key i observed ≡ some attempt
  pub measured : get_key i measurements ≡ some (some measurement)
  pub made : build_entry attempt measurement ≡ built entry
  pub recorded : entry.recording ≡ r
  pub snapshot : Retains snapshot_texts c.snapshots (r.schema_id ∷ []) entry.snapshot
  pub contract : Retains contract_texts c.contracts (r.schema_id ∷ r.case_id ∷ []) entry.contract

-- One recording for each planned run, in their order.
pub data AreRecorded (P : Texts → Recording → Type 0) : List Texts → List Recording → Type 0 where
  no_runs : AreRecorded P [] []
  next_run :
      {i : Texts} {r : Recording} {is : List Texts} {rs : List Recording}
      → P i r
      → AreRecorded P is rs
      → AreRecorded P (i ∷ is) (r ∷ rs)

both : (a b : Bool) → (a && b) ≡ true → (a ≡ true) × (b ≡ true)
both true b h = (refl, h)
both false b h = cc

pub texts_eq_lem : (s t : Texts) → texts_eq s t ≡ true → s ≡ t
texts_eq_lem [] [] h = refl
texts_eq_lem (s ∷ ss) (t ∷ ts) h =
    let (p, q) = both (str_eq s t) (texts_eq ss ts) h in
    ap₂ (λ x xs. x ∷ xs) ((eq_iff s t).0 p) (texts_eq_lem ss ts q)
texts_eq_lem [] (t ∷ ts) h = cc
texts_eq_lem (s ∷ ss) [] h = cc

pub texts_eq_refl : (s : Texts) → texts_eq s s ≡ true
texts_eq_refl [] = refl
texts_eq_refl (s ∷ ss) = rw ((eq_iff s s).1 refl) (texts_eq_refl ss)

-- What a table has under a key it keeps when another key is added.
unfoldable pub Grows : Table Texts → Table Texts → Type 0
Grows t t' = (k v : Texts) → get_key k t ≡ some v → get_key k t' ≡ some v

get_key-append :
    (t : Table Texts) (l w k v : Texts)
    → get_key k t ≡ some v
    → get_key k (t ++ (l, w) ∷ []) ≡ some v
get_key-append [] l w k v h = cc
get_key-append ((m, u) ∷ t) l w k v h = elim (Bool-cases (texts_eq m k)) [
  | inl e ↦ rw e (rw e at h)
  | inr e ↦ rw e (get_key-append t l w k v (rw e at h))
]

get_key-append_last :
    (t : Table Texts) (k v : Texts) → get_key k t ≡ none → get_key k (t ++ (k, v) ∷ []) ≡ some v
get_key-append_last [] k v h = rw (texts_eq_refl k) refl
get_key-append_last ((m, u) ∷ t) k v h = elim (Bool-cases (texts_eq m k)) [
  | inl e ↦ absurd (let h' = rw e at h in cc)
  | inr e ↦ rw e (get_key-append_last t k v (rw e at h))
]

pub built-injective : {A : Type 0} (x y : A) → built x ≡ built y → x ≡ y
built-injective x y h = cc

retain-Grows :
    (o : Option Texts) (t t' : Table Texts) (k v : Texts) (e : ArtifactError)
    → get_key k t ≡ o
    → retain o t k v e ≡ built t'
    → Grows t t' × (get_key k t' ≡ some v)
unfolding Grows
retain-Grows none t t' k v e g h =
    let same = built-injective (t ++ (k, v) ∷ []) t' h in
    rw (← same) ((λ l w q. get_key-append t k v l w q), get_key-append_last t k v g)
retain-Grows (some w) t t' k v e g h = elim (Bool-cases (texts_eq w v)) [
  | inl q ↦
      let same = built-injective t t' (rw q at h) in
      rw (← same) ((λ l u p. p), g ∙ ap (λ x. some x) (texts_eq_lem w v q))
  | inr q ↦ absurd (let h' = rw q at h in cc)
]

pub retain_optional-Grows :
    {A : Type 0} (f : A → Texts) (o : Option A) (t t' : Table Texts) (k : Texts) (e : ArtifactError)
    → retain_optional f o t k e ≡ built t'
    → Grows t t' × Retains f t' k o
unfolding Grows
retain_optional-Grows f none t t' k e h =
    let same = built-injective t t' h in rw (← same) ((λ l u p. p), tt)
retain_optional-Grows f (some a) t t' k e h = retain-Grows (get_key k t) t t' k (f a) e refl h
