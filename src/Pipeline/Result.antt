-- ===== src/Pipeline/Result.antt =====
-- What a stage raises, and a chain of steps that may raise.
-- The `ValueError`s of the pipeline; then what it lets through from its calls: an error of
-- `build_planned_analysis_section`, an `AnalysisContextError`, and any other of a runner.
pub data Raise : Type 0 where
  already_succeeded incomplete_output bytes_below_execution : Raise
  contract_missing panel_count_invalid row_limit_invalid cost_invalid : Raise
  specification_mismatch no_normalized_sql no_inspection no_execution : Raise
  section_unsupported context_invalid call_raised : Raise

pub data Result {ℓ} (A : Type ℓ) : Type ℓ where
  ok : A → Result A
  err : Raise → Result A

infixl 5 ◌>>=◌
abbrev pub ◌>>=◌ {ℓ κ} : {A : Type ℓ} {B : Type κ} → Result A → (A → Result B) → Result B
ok a >>= f = f a
err e >>= f = err e
