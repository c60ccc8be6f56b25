-- ===== src/PullRequest.antt =====
-- The size policy of pull requests: scripts/pr_size_policy.py, without its advisory warnings, which
-- read source files, and its command line.
pub mod Counted
mod Tests
use text.Mathlib.Text.{◌==◌ as str_eq}
use repchat.Prelude.{
  ℕ, ◌+◌, ◌-◌, String, Bool, true, false, not, ◌&&◌, ◌||◌, Option, none, some, List, [], ◌∷◌, ◌++◌,
  ltb, ◌==◌, any_of, filter, if◌then◌else◌,
}
use Prim.Native.Char.{code}

-- `LOCKFILE_NAMES`
abbrev pub lockfile_names : List String
lockfile_names =
    ".terraform.lock.hcl" ∷ "Cargo.lock" ∷ "Gemfile.lock" ∷ "Pipfile.lock" ∷ "bun.lock"
    ∷ "bun.lockb" ∷ "composer.lock" ∷ "go.sum" ∷ "npm-shrinkwrap.json" ∷ "package-lock.json"
    ∷ "pnpm-lock.yaml" ∷ "poetry.lock" ∷ "uv.lock" ∷ "yarn.lock" ∷ []

extend : (String → String) → List String → List String
extend f [] = f String.[] ∷ []
extend f (p ∷ ps) = f p ∷ ps

-- The parts of a text between its slashes.
split : String → List String
unfolding extend
split String.[] = String.[] ∷ []
split (String.◌∷◌ c s) =
    let rest = split s in
    if code c == b'/' then String.[] ∷ rest else extend (λ p. String.◌∷◌ c p) rest

last_of : String → List String → String
last_of s [] = s
last_of s (p ∷ ps) = last_of p ps

-- `PurePosixPath(filename).name`: the last part that is neither empty nor a single dot.
unfoldable pub path_name : String → String
unfolding split last_of
path_name s = last_of "" (filter (λ p. not (str_eq p "" || str_eq p ".")) (split s))

abbrev pub is_lockfile : String → Bool
is_lockfile s = any_of (str_eq (path_name s)) lockfile_names

-- A file of the response; `none` is a missing value or one that is no text, no natural number.
pub record FileEntry : Type 0 where
  pub filename : Option String
  pub additions : Option ℕ
  pub deletions : Option ℕ

-- The JSON of the response: an array of objects, an array of such arrays, or another value.
pub data Payload : Type 0 where
  flat : List FileEntry → Payload
  pages : List (List FileEntry) → Payload
  other_payload : Payload

abbrev pub concat : List (List FileEntry) → List FileEntry
concat [] = []
concat (p ∷ ps) = p ++ concat ps

-- `_flatten_pages(payload)`; `none` is a `ValueError` here and below.
abbrev pub flatten_pages : Payload → Option (List FileEntry)
flatten_pages (flat es) = some es
flatten_pages (pages ps) = some (concat ps)
flatten_pages other_payload = none

pub record Stats : Type 0 where
  pub additions : ℕ
  pub deletions : ℕ
  pub files : ℕ

abbrev pub count_file : Stats → String → ℕ → ℕ → Stats
count_file t name added deleted =
    if is_lockfile name
    then record {
      additions = t.additions + added;
      deletions = t.deletions + deleted;
      files = t.files + 1;
    }
    else t

-- One round of the loop.
abbrev pub add_entry : Stats → Option String → Option ℕ → Option ℕ → Option Stats
add_entry t (some name) (some added) (some deleted) = some (count_file t name added deleted)
add_entry t _ _ _ = none

abbrev pub then_stats : Option Stats → (Stats → Option Stats) → Option Stats
then_stats none f = none
then_stats (some t) f = f t

-- The loop, from the counts so far.
unfoldable pub summarize_from : Stats → List FileEntry → Option Stats
unfolding path_name
summarize_from t [] = some t
summarize_from t (e ∷ es) =
    then_stats (add_entry t e.filename e.additions e.deletions) (λ u. summarize_from u es)

abbrev pub no_stats : Stats
no_stats = record { additions = 0; deletions = 0; files = 0 }

abbrev pub summarize_entries : Option (List FileEntry) → Option Stats
summarize_entries none = none
summarize_entries (some es) = summarize_from no_stats es

-- `summarize_lockfiles(payload)`
unfoldable pub summarize_lockfiles : Payload → Option Stats
unfolding summarize_from
summarize_lockfiles p = summarize_entries (flatten_pages p)

pub data Level : Type 0 where
  within_limits soft hard : Level

pub record SizeResult : Type 0 where
  pub changed_lines : ℕ
  pub changed_files : ℕ
  pub level : Level

abbrev pub level_of_size : ℕ → ℕ → Level
level_of_size lines files =
    if ltb 800 lines || ltb 20 files
    then hard
    else if ltb 400 lines || ltb 10 files
    then soft
    else within_limits

abbrev pub size_result : ℕ → ℕ → SizeResult
size_result lines files = record {
  changed_lines = lines;
  changed_files = files;
  level = level_of_size lines files;
}

-- `evaluate_size(additions, deletions, files, lockfile_stats)`. Where no exclusion exceeds its total
-- no subtraction of the program goes below zero.
unfoldable pub evaluate_size : ℕ → ℕ → ℕ → Stats → Option SizeResult
evaluate_size additions deletions files t =
    if ltb additions t.additions || ltb deletions t.deletions || ltb files t.files
    then none
    else some (size_result (additions - t.additions + (deletions - t.deletions)) (files - t.files))
