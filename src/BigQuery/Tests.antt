-- ===== src/BigQuery/Tests.antt =====
-- Queries at the validation and at the client, one run of the pipeline on them, and the theorems at
-- these.
use mathlib.Core.Path.{subst}
use repchat.Prelude.{
  ℕ, zero, suc, ◌*◌, ◌+◌, ◌≡◌, refl, String, Bool, true, false, none, some, [], ◌∷◌, arith,
}
use repchat.Diagnostic.{Code}
use repchat.Text.{strip, lstrip, rstrip, is_blank, is_space}
use repchat.BigQuery.Scan.{
  fold_case, is_name_char, after_folded, is_word, starts_word, has_keyword, search_word,
  has_forbidden, is_select, has_select_star, is_scan_limit,
}
use repchat.BigQuery.Replace.{strip_comments, strip_literals, table_matches}
use repchat.BigQuery.Contract.{contract_sql_diagnostic}
use repchat.BigQuery.Validation.{
  Policy, Validated, passed, refused, has_semicolon, without_final, normalize, code_of_text,
  text_diagnostic, validate_sql_diagnostic,
}
use repchat.BigQuery.Allowed.{
  IsAllowed, validate_sql_diagnostic_exact, validate_sql_diagnostic-again,
}
use repchat.BigQuery.DryRun.{
  integer, Reply, answered, DryRunJob, JobConfig, full_name, dry_run_metadata_diagnostic,
  inspect_bq_dry_run_diagnostic,
}
use repchat.BigQuery.Execution.{QueryJob, ended, refuse, wait_loop, execute_cancellable}
use repchat.BigQuery.Inspected.{IsInspected, inspect_bq_dry_run_diagnostic-IsInspected}
use repchat.BigQuery.Wait.{IsPaced, Ends, HasPacedJobs, execute_cancellable-Ends}
use repchat.Pipeline.Attempts.{Inspection}

abbrev pub policy : Policy
policy = record {
  query_tables = "p-1.sales.orders" ∷ [];
  job_tables = "p-1.sales.orders" ∷ [];
  maximum_bytes_billed = 100;
  maximum_result_rows = 10;
  schema_fields =
      record {
        table = "p-1.sales.orders";
        path = "x" ∷ [];
        field_type = "INT64";
        mode = "NULLABLE";
        restricted = false;
      }
      ∷ [];
}

abbrev pub all_words : ℕ → Bool
all_words c = true

-- The check of the contract, on texts that the two functions of `str` leave as they are.
abbrev pub schema_error : String → Policy → Bool
schema_error = contract_sql_diagnostic (λ s. s) (λ s. s)

abbrev check : String → Validated String
check s = validate_sql_diagnostic all_words schema_error s (some policy)

abbrev pub query_text : String
query_text = "select x from `p-1.sales.orders`"

accepted :
    check "  select x from `p-1.sales.orders` -- y.z.w\n where a = 'it''s a, drop b' ; "
    ≡ passed "select x from `p-1.sales.orders` -- y.z.w\n where a = 'it''s a, drop b'"
unfolding validate_sql_diagnostic contract_sql_diagnostic normalize has_semicolon without_final
    text_diagnostic code_of_text strip lstrip rstrip is_blank is_space has_forbidden is_select
    has_select_star strip_comments strip_literals table_matches search_word has_keyword starts_word
    after_folded is_word is_name_char fold_case
accepted = refl

query_passes : check (String.◌∷◌ " " query_text) ≡ passed query_text
unfolding validate_sql_diagnostic contract_sql_diagnostic normalize has_semicolon without_final
    text_diagnostic code_of_text strip lstrip rstrip is_blank is_space has_forbidden is_select
    has_select_star strip_comments strip_literals table_matches search_word has_keyword starts_word
    after_folded is_word is_name_char fold_case
query_passes = refl

-- A semicolon in a literal counts as well.
literal_refused : check "select x from p.s.o where a = ';'" ≡ refused Code.multiple_statements
unfolding validate_sql_diagnostic contract_sql_diagnostic normalize has_semicolon without_final
    text_diagnostic strip lstrip rstrip is_blank is_space is_select has_keyword starts_word
    after_folded is_word is_name_char fold_case
literal_refused = refl

star_refused :
    check "With q as (select distinct t.* from `p-1.sales.orders`) select 1 "
    ≡ refused Code.select_star
unfolding validate_sql_diagnostic contract_sql_diagnostic normalize has_semicolon without_final
    text_diagnostic code_of_text strip lstrip rstrip is_blank is_space has_forbidden is_select
    has_select_star strip_comments strip_literals table_matches search_word has_keyword starts_word
    after_folded is_word is_name_char fold_case
star_refused = refl

decorator_refused :
    check "select x /* insert */ from `p-1.sales.orders`, a.b.c$1"
    ≡ refused Code.table_decorator_outside_scope
unfolding validate_sql_diagnostic contract_sql_diagnostic normalize has_semicolon without_final
    text_diagnostic code_of_text strip lstrip rstrip is_blank is_space has_forbidden is_select
    has_select_star strip_comments strip_literals table_matches search_word has_keyword starts_word
    after_folded is_word is_name_char fold_case
decorator_refused = refl

keyword_refused :
    check "select updates, Insert from `p-1.sales.orders`" ≡ refused Code.forbidden_keyword
unfolding validate_sql_diagnostic contract_sql_diagnostic normalize has_semicolon without_final
    text_diagnostic code_of_text strip lstrip rstrip is_blank is_space has_forbidden is_select
    has_select_star strip_comments strip_literals table_matches search_word has_keyword starts_word
    after_folded is_word is_name_char fold_case
keyword_refused = refl

-- An unterminated literal gives back its last pair of quotes.
literals_replaced : code_of_text "'a''b'c'd''e /* ' */ -- f 'g\n h" ≡ "''c'''e    \n h"
unfolding code_of_text strip_comments strip_literals
literals_replaced = refl

limit_message : is_scan_limit "400 Query: Maximum number of bytes that may be BILLED" ≡ true
unfolding is_scan_limit after_folded fold_case
limit_message = refl

other_message : is_scan_limit "maximum bytes\nbilled" ≡ false
unfolding is_scan_limit after_folded fold_case
other_message = refl

-- A comment mark inside a literal hides what follows it: neither the keyword nor the table after it is
-- seen, though both are code.
hidden_text : String
hidden_text =
    "select x from `p-1.sales.orders` where a = '--' or (select y from `q.z.w` where drop = 1) = 1"

hidden_by_literal :
    validate_sql_diagnostic all_words
      (contract_sql_diagnostic (λ s. s) (λ s. s))
      hidden_text
      (some policy)
    ≡ passed hidden_text
unfolding hidden_text validate_sql_diagnostic normalize has_semicolon without_final text_diagnostic
    code_of_text strip lstrip rstrip is_blank is_space has_forbidden is_select has_select_star
    strip_comments strip_literals table_matches search_word has_keyword starts_word after_folded
    is_word is_name_char fold_case contract_sql_diagnostic
hidden_by_literal = refl

validate_sql_diagnostic_exact_example :
    (query_text ≡ normalize (String.◌∷◌ " " query_text))
    × IsAllowed all_words schema_error policy query_text
validate_sql_diagnostic_exact_example =
    (validate_sql_diagnostic_exact all_words schema_error (String.◌∷◌ " " query_text) query_text
        policy).0
      query_passes

validate_sql_diagnostic-again_example : check query_text ≡ passed query_text
validate_sql_diagnostic-again_example =
    validate_sql_diagnostic-again all_words schema_error (String.◌∷◌ " " query_text) query_text
      policy query_passes

abbrev dry_job : DryRunJob
dry_job = record {
  statement_type = some "SELECT";
  referenced_tables =
      record { project = some "p-1"; dataset_id = some "sales"; table_id = some "orders" } ∷ [];
  schema = record { name = "x"; field_type = "INT64"; mode = none } ∷ [];
  total_bytes_processed = integer 9;
}

abbrev inspection : Inspection
inspection = record { schema = ("x" ∷ "INT64" ∷ []) ∷ []; estimated_bytes_processed = 9 }

abbrev pub query_dry_run : String → JobConfig → Reply DryRunJob
query_dry_run s c = answered dry_job

dry_run_passes :
    inspect_bq_dry_run_diagnostic all_words schema_error query_dry_run query_text (some policy)
    ≡ (some inspection, none)
unfolding inspect_bq_dry_run_diagnostic dry_run_metadata_diagnostic full_name
    validate_sql_diagnostic contract_sql_diagnostic normalize has_semicolon without_final
    text_diagnostic code_of_text strip lstrip rstrip is_blank is_space has_forbidden is_select
    has_select_star strip_comments strip_literals table_matches search_word has_keyword starts_word
    after_folded is_word is_name_char fold_case
dry_run_passes = refl

inspect_bq_dry_run_diagnostic-IsInspected_example :
    (t : String) × (check query_text ≡ passed t) × IsInspected query_dry_run policy t inspection
inspect_bq_dry_run_diagnostic-IsInspected_example =
    inspect_bq_dry_run_diagnostic-IsInspected all_words schema_error query_dry_run query_text policy
      inspection dry_run_passes

-- A job that is done in its third round, while each round takes 0.3 seconds.
abbrev is_third : ℕ → Bool
is_third (suc (suc n)) = true
is_third _ = false

abbrev job : QueryJob
job = record {
  started = 5;
  polls = λ i. record {
    done = answered (is_third i);
    cancel_requested = false;
    now = 5 + 300000000 * suc i;
  };
  cancel = answered tt;
  result = λ n. answered (record { rows = "1" ∷ []; names = "x" ∷ [] });
  total_bytes_processed = integer 10;
}

abbrev pub query_job : String → JobConfig → Reply QueryJob
query_job s c = answered job

job-IsPaced : IsPaced job.started job.polls
job-IsPaced zero h = omega arith
job-IsPaced (suc i) h = omega arith

answered-injective : (i j : QueryJob) → answered i ≡ answered j → i ≡ j
answered-injective i j h = cc

query_job-HasPacedJobs : HasPacedJobs query_job
query_job-HasPacedJobs s c j h =
    subst (λ (k : QueryJob). IsPaced k.started k.polls) (answered-injective job j h) job-IsPaced

execution_ends :
    execute_cancellable all_words schema_error query_job query_text (some 11) (some policy)
    ≡ ended (some (record { rows = "1" ∷ []; columns = "x" ∷ []; bytes_processed = 10 }), none)
unfolding execute_cancellable wait_loop validate_sql_diagnostic contract_sql_diagnostic normalize
    has_semicolon without_final text_diagnostic code_of_text strip lstrip rstrip is_blank is_space
    has_forbidden is_select has_select_star strip_comments strip_literals table_matches search_word
    has_keyword starts_word after_folded is_word is_name_char fold_case
execution_ends = refl

-- A job that is never done is given up at the deadline.
late_job : QueryJob → QueryJob
late_job j = record j {
  polls = λ i. record {
    done = answered false;
    cancel_requested = false;
    now = 5 + 20000000000 * suc i;
  };
}

execution_times_out :
    execute_cancellable all_words schema_error
      (λ s c. answered (late_job job))
      query_text
      none
      (some policy)
    ≡ ended (refuse Code.execution_timeout)
unfolding late_job execute_cancellable wait_loop validate_sql_diagnostic contract_sql_diagnostic
    normalize has_semicolon without_final text_diagnostic code_of_text strip lstrip rstrip is_blank
    is_space has_forbidden is_select has_select_star strip_comments strip_literals table_matches
    search_word has_keyword starts_word after_folded is_word is_name_char fold_case
execution_times_out = refl

execute_cancellable-Ends_example :
    Ends (execute_cancellable all_words schema_error query_job query_text (some 11) (some policy))
execute_cancellable-Ends_example =
    execute_cancellable-Ends all_words schema_error query_job query_text (some 11) (some policy)
      query_job-HasPacedJobs
