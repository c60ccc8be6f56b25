-- ===== src/Pipeline/Sound/Rendered.antt =====
-- The invariant through the validation of the result and the rendering, and over a whole run.
use repchat.Prelude.{
  ℕ, ◌≤◌, ◌<◌, String, ◌≡◌, refl, Bool, true, false, Option, none, some, List, arith,
}
use repchat.Outcome.{result_validation, Row}
use repchat.Pipeline.Attempts.{
  Failure, DashboardResult, ExecutionAttempt, ResultAttempt, RenderingAttempt,
}
use repchat.Pipeline.Recording.{
  Measurement, stage_of, code_of, text_of, rendering_record, below_executed, record_result,
  record_rendering, failed_run,
}
use repchat.Pipeline.Boundary.{
  Boundary, IsLawful, Rendering, rendered, renderer_infrastructure, renderer_raised,
}
use repchat.Pipeline.Accepted.{IsAccepted, result-IsAccepted, rendering-IsAccepted}
use repchat.Pipeline.Artifacts.{preflight_of, diagnostic_of, finish}
use repchat.Pipeline.Stages.{plan_attempt, generate_attempt}
use repchat.Pipeline.Validation.{validate_attempt}
use repchat.Pipeline.Inspection.{dry_run_attempt, execute_attempt, row_limit}
use repchat.Pipeline.Run.{
  result_attempt, result_step, render_attempt, render_step, unrendered, read_result, read_rendering,
  PlannedRun, preflight_attempt, run_rendering,
}
use repchat.Pipeline.Sound.{
  rank, is_stage-later, Records, Records-with_run, HasArtifacts-of_contract, Post, Post-bind,
}
use repchat.Pipeline.Sound.Preflight.{preflight_attempt-IsPreflight}
use repchat.Pipeline.Sound.Planned.{
  IsPlanned, plan_attempt-IsPlanned, IsGenerated, generate_attempt-IsGenerated,
}
use repchat.Pipeline.Sound.Evidence.{WasExecuted, HasEvidence, record_execution-HasEvidence}
use repchat.Pipeline.Sound.Validated.{origin, HasSql, IsValidated, validate_attempt-IsValidated}
use repchat.Pipeline.Sound.Inspected.{
  IsDryRun, dry_run_attempt-IsDryRun, ExecutionCase, IsExecuted, execute_attempt-IsExecuted,
  row_limit-Post, not_blank,
}

-- The measured bytes are at least those of the execution, if there was one.
abbrev pub Covers : Measurement → Option ℕ → Type 0
Covers m none = Unit
Covers m (some n) = n ≤ m.bytes_processed

abbrev pub any : Measurement
any = record { bytes_processed = 0; cost_jpy = 0 }

Covers-not_below :
    (m : Measurement) (o : Option ℕ) (n : ℕ)
    → o ≡ some n
    → Covers m o
    → below_executed o m.bytes_processed ≡ false
Covers-not_below m none n e h = cc
Covers-not_below m (some k) n e h = ground arith

module _ (b : Boundary) (law : IsLawful b) (m : Measurement) where
  -- What the execution has left for the validation of its result.
  abbrev Executed : ExecutionAttempt → ℕ → Type 0
  Executed a n =
      (a.bytes_processed ≡ some n)
      × (a.diagnostic ≡ none)
      × ((t : String) × (a.dry_run_attempt.validated_attempt.validated_sql ≡ some t)
          × WasExecuted b t
          × HasSql b law m a.dry_run_attempt.validated_attempt.generated_attempt t)

  abbrev ResultCase :
      ResultAttempt
      → Option Failure
      → Option (List Row)
      → Option (List String)
      → Option String
      → Type 0
  ResultCase a (some f) rows columns v =
      (rank f.stage ≤ 7)
      × (Covers m a.bytes_processed
          → Records (origin a.execution_attempt.dry_run_attempt.validated_attempt.generated_attempt)
              a.execution_attempt.diagnostic (record_result a m)
            × HasEvidence b (record_result a m))
  ResultCase a none (some rows) (some columns) (some v) =
      (n : ℕ) × (a.bytes_processed ≡ some n) × Executed a.execution_attempt n
  ResultCase a none _ _ _ = ⊥

  abbrev IsResult : ResultAttempt → Type 0
  IsResult a = ResultCase a a.failure a.rows a.columns a.visualization

  read_result-IsResult :
      (a : ExecutionAttempt) (n : ℕ) (o : Option DashboardResult)
      → Executed a n
      → IsResult (read_result a o)
  unfolding record_result
  read_result-IsResult a n (some q) h = (n, h.0, h)
  read_result-IsResult a n none (en, ed, (t, et, x, h)) =
      let v = a.dry_run_attempt.validated_attempt in
      let p = origin v.generated_attempt in
      (
        omega arith,
        λ h'.
            rw (Covers-not_below m a.bytes_processed n en h', ed)
              (
                Records-with_run p none _ refl
                    (result-IsAccepted p m (text_of v.validated_sql) (not_blank b law m v t et h))
                    (HasArtifacts-of_contract p h.0 result_validation (omega arith) h.1),
                λ done. rw et x,
              ),
      )

  result_step-IsResult :
      (a : ExecutionAttempt) (f : Option Failure) (rows : Option (List Row))
      (columns : Option (List String)) (n : Option ℕ)
      → a.bytes_processed ≡ n
      → ExecutionCase b law m a f rows columns n
      → let g = a.dry_run_attempt.validated_attempt.generated_attempt in
        Post IsResult (result_step b a f (origin g).result.contract g.section rows columns n)
  unfolding record_result
  result_step-IsResult a (some f) rows columns n en (r, h) = (
    omega arith,
    λ h'.
        rw (is_stage-later result_validation f.stage (omega arith) (omega arith))
          (h, record_execution-HasEvidence m b a),
  )
  result_step-IsResult a none (some rows) (some columns) (some n) en
        (ed, (t, et, x, (c, h, (s, es), (p, ep, v)))) =
      simp (h.2, es, ep)
        (Post-bind (λ k. 0 < k) IsResult (row_limit s.max_result_rows) _
          (row_limit-Post b law m s.max_result_rows)
          (λ k pos. read_result-IsResult a n _ (en, ed, (t, et, x, (c, h, (s, es), (p, ep, v))))))
  result_step-IsResult a none none columns n en h = absurd h
  result_step-IsResult a none (some rows) none n en h = absurd h
  result_step-IsResult a none (some rows) (some columns) none en h = absurd h

  rendering_record-failed :
      (a : RenderingAttempt) (o : Option Failure) (f : Failure)
      → o ≡ some f
      → rendering_record o a m ≡ record_result a.result_attempt m
  rendering_record-failed a (some g) f e = refl
  rendering_record-failed a none f e = cc

  abbrev pub IsRendered : RenderingAttempt → Type 0
  IsRendered a =
      Covers m a.result_attempt.bytes_processed
      → Records (preflight_of a) (diagnostic_of a) (record_rendering a m)
        × HasEvidence b (record_rendering a m)

  -- A result that was validated, with its parts.
  abbrev Checked : ResultAttempt → List Row → List String → String → Type 0
  Checked a rows columns v =
      (a.failure ≡ none)
      × (a.rows ≡ some rows)
      × (a.columns ≡ some columns)
      × (a.visualization ≡ some v)

  -- What a validated result records, with the outcome of its rendering.
  abbrev Renders : ResultAttempt → Bool → Option Failure → List Row → Type 0
  Renders a done f rows =
      let w = a.execution_attempt.dry_run_attempt.validated_attempt in
      let end : Failure = record { stage = stage_of f; code = code_of f } in
      IsAccepted (
        finish none
          (record (failed_run (origin w.generated_attempt) (text_of w.validated_sql) end m) {
            sql_execution_succeeded = true;
            actual_rows = rows;
            render_succeeded = done;
          }))

  record_rendering-Records :
      (a : RenderingAttempt) (rows : List Row) (columns : List String) (v : String) (n : ℕ)
      → Checked a.result_attempt rows columns v
      → a.result_attempt.bytes_processed ≡ some n
      → Executed a.result_attempt.execution_attempt n
      → 1 < rank (stage_of a.failure)
      → Renders a.result_attempt a.render_succeeded a.failure rows
      → IsRendered a
  unfolding record_rendering
  record_rendering-Records a rows columns v n (ef, er, ec, ev) en (eb, ed, (t, et, x, h)) r k h' =
      let w = a.result_attempt.execution_attempt.dry_run_attempt.validated_attempt in
      let p = origin w.generated_attempt in
      rw (ef, Covers-not_below m a.result_attempt.bytes_processed n en h', er, ec, ev, ed)
        (
          Records-with_run p none _ refl k
              (HasArtifacts-of_contract p h.0 (stage_of a.failure) r h.1),
          λ done. rw et x,
        )

  read_rendering-IsRendered :
      (a : ResultAttempt) (rows : List Row) (columns : List String) (v : String) (n : ℕ)
      (o : Rendering)
      → Checked a rows columns v
      → a.bytes_processed ≡ some n
      → Executed a.execution_attempt n
      → Post IsRendered (read_rendering a o)
  read_rendering-IsRendered a rows columns v n o c en (eb, ed, (t, et, x, h)) =
      let w = a.execution_attempt.dry_run_attempt.validated_attempt in
      let (failing, broken, done) =
        rendering-IsAccepted (origin w.generated_attempt) m (text_of w.validated_sql)
          (not_blank b law m w t et h) rows in
      let y : Executed a.execution_attempt n = (eb, ed, (t, et, x, h)) in
      elim o as (λ k. Post IsRendered (read_rendering a k)) [
        | renderer_raised ↦ tt
        | renderer_infrastructure ↦
            record_rendering-Records _ rows columns v n c en y (omega arith) broken
        | rendered false ↦ record_rendering-Records _ rows columns v n c en y (omega arith) failing
        | rendered true ↦ record_rendering-Records _ rows columns v n c en y (omega arith) done
      ]

  render_step-IsRendered :
      (a : ResultAttempt) (f : Option Failure) (rows : Option (List Row))
      (columns : Option (List String)) (v : Option String)
      → a.failure ≡ f
      → a.rows ≡ rows
      → a.columns ≡ columns
      → a.visualization ≡ v
      → ResultCase a f rows columns v
      → Post IsRendered (render_step b a f rows columns v)
  unfolding record_rendering
  render_step-IsRendered a (some f) rows columns v ef er ec ev (r, h) =
      λ h'. rw (rendering_record-failed (unrendered a f) a.failure f ef) (h h')
  render_step-IsRendered a none (some rows) (some columns) (some v) ef er ec ev (n, en, x) =
      read_rendering-IsRendered a rows columns v n (b.render v columns rows) (ef, er, ec, ev) en x
  render_step-IsRendered a none none columns v ef er ec ev h = absurd h
  render_step-IsRendered a none (some rows) none v ef er ec ev h = absurd h
  render_step-IsRendered a none (some rows) (some columns) none ef er ec ev h = absurd h

  result_attempt-IsResult :
      (a : ExecutionAttempt) → IsExecuted b law m a → Post IsResult (result_attempt b a)
  unfolding result_attempt
  result_attempt-IsResult a h =
      result_step-IsResult a a.failure a.rows a.columns a.bytes_processed refl h

  render_attempt-IsRendered :
      (a : ResultAttempt) → IsResult a → Post IsRendered (render_attempt b a)
  unfolding render_attempt
  render_attempt-IsRendered a h =
      render_step-IsRendered a a.failure a.rows a.columns a.visualization refl refl refl refl h

  pub run_rendering-IsRendered : (p : PlannedRun) → Post IsRendered (run_rendering b p)
  unfolding run_rendering
  run_rendering-IsRendered p =
      Post-bind (IsPlanned m) IsRendered (plan_attempt b (preflight_attempt b p)) _
        (plan_attempt-IsPlanned m b (preflight_attempt b p) (preflight_attempt-IsPreflight m p b))
        (λ a1 h1.
          Post-bind (IsGenerated m) IsRendered (generate_attempt b a1) _
            (generate_attempt-IsGenerated m b a1 h1)
            (λ a2 h2.
              Post-bind (IsValidated b law m) IsRendered (validate_attempt b a2) _
                (validate_attempt-IsValidated b law m a2 h2)
                (λ a3 h3.
                  Post-bind (IsDryRun b law m) IsRendered (dry_run_attempt b a3) _
                    (dry_run_attempt-IsDryRun b law m a3 h3)
                    (λ a4 h4.
                      Post-bind (IsExecuted b law m) IsRendered (execute_attempt b a4) _
                        (execute_attempt-IsExecuted b law m a4 h4)
                        (λ a5 h5.
                          Post-bind IsResult IsRendered (result_attempt b a5) _
                            (result_attempt-IsResult a5 h5)
                            (λ a6 h6. render_attempt-IsRendered a6 h6))))))
