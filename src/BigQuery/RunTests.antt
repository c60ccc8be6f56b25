-- ===== src/BigQuery/RunTests.antt =====
-- One run of the pipeline on the client of the tests, and the theorems at it.
use repchat.Prelude.{◌≡◌, refl, String, some, arith}
use repchat.Text.{strip, lstrip, rstrip, is_blank, is_space, is_revision}
use repchat.BigQuery.Scan.{
  fold_case, is_name_char, after_folded, is_word, starts_word, has_keyword, search_word,
  has_forbidden, is_select, has_select_star,
}
use repchat.BigQuery.Replace.{strip_comments, strip_literals, table_matches}
use repchat.BigQuery.Contract.{contract_sql_diagnostic}
use repchat.BigQuery.Validation.{
  has_semicolon, without_final, normalize, code_of_text, text_diagnostic, validate_sql_diagnostic,
}
use repchat.BigQuery.DryRun.{full_name, dry_run_metadata_diagnostic, inspect_bq_dry_run_diagnostic}
use repchat.BigQuery.Execution.{execute_bq_diagnostic}
use repchat.BigQuery.Lawful.{Client, validate, with_bigquery, with_bigquery-IsLawful}
use repchat.BigQuery.Composed.{IsInPolicy, executed_in_scope}
use repchat.Pipeline.Attempts.{ValidatedAttempt, RenderingAttempt}
use repchat.Pipeline.Result.{ok}
use repchat.Pipeline.Boundary.{Boundary, IsLawful, non_negative, answered as answered_sql}
use repchat.Pipeline.Artifacts.{Entry, built, build_entry}
use repchat.Pipeline.Stages.{run_preflight, plan_attempt, generate_attempt}
use repchat.Pipeline.Validation.{validate_attempt}
use repchat.Pipeline.Inspection.{dry_run_attempt, execute_attempt}
use repchat.Pipeline.Run.{run_rendering, result_attempt, render_attempt}
use repchat.Pipeline.Tests.{
  answer, boundary, one_run, validated_run, executed_run, finished_run, measured, finished_entry,
}
use repchat.BigQuery.Tests.{policy, all_words, query_text, query_dry_run, query_job}

abbrev client : Client
client = record {
  wide_word = all_words;
  casefold = λ s. s;
  upper = λ s. s;
  query_dry_run = query_dry_run;
  query_job = query_job;
}

-- The run of the pipeline's tests, where the SQL role answers the query.
abbrev inner : Boundary
inner = record (boundary (non_negative 7)) {
  execution_policy = λ c. some policy;
  generate_sql = λ s c.
      answered_sql (some (record answer { sql = some (String.◌∷◌ " " query_text) }))
        (some (non_negative 7));
}

abbrev validated : ValidatedAttempt
validated = record validated_run {
  generated_attempt = record validated_run.generated_attempt { generated_sql = some query_text };
  validated_sql = some query_text;
}

abbrev finished : RenderingAttempt
finished = record finished_run {
  result_attempt = record finished_run.result_attempt {
    execution_attempt = record executed_run {
      dry_run_attempt = record executed_run.dry_run_attempt { validated_attempt = validated };
    };
  };
}

run_finishes : run_rendering (with_bigquery client inner) one_run ≡ ok finished
unfolding run_rendering plan_attempt generate_attempt validate_attempt dry_run_attempt
    execute_attempt result_attempt render_attempt run_preflight is_revision with_bigquery validate
    inspect_bq_dry_run_diagnostic execute_bq_diagnostic dry_run_metadata_diagnostic full_name
    validate_sql_diagnostic normalize has_semicolon without_final text_diagnostic code_of_text strip
    lstrip rstrip is_blank is_space has_forbidden is_select has_select_star strip_comments
    strip_literals table_matches search_word has_keyword starts_word after_folded is_word
    is_name_char fold_case contract_sql_diagnostic
run_finishes = refl

abbrev entry : Entry
entry = record finished_entry {
  recording = record finished_entry.recording {
    run = record finished_entry.recording.run { generated_sql = query_text };
  };
}

run_is_kept : build_entry finished measured ≡ built entry
unfolding build_entry
run_is_kept = refl

executed_in_scope_example : IsInPolicy client inner query_text
executed_in_scope_example =
    executed_in_scope client inner one_run measured finished entry run_finishes (omega arith)
      run_is_kept refl

with_bigquery-IsLawful_example : IsLawful (with_bigquery client inner)
with_bigquery-IsLawful_example = with_bigquery-IsLawful client inner
