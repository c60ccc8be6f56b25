-- ===== src/PullRequest/Tests.antt =====
-- A pull request of two files, and the theorems at it.
use repchat.Prelude.{◌+◌, ◌≡◌, refl, false, some, List, [], ◌∷◌}
use repchat.PullRequest.{
  FileEntry, pages, Stats, path_name, summarize_lockfiles, evaluate_size, size_result,
}
use repchat.PullRequest.Counted.{added_by, deleted_by, files_of, size_counts_others}

abbrev files : List FileEntry
files =
    record { filename = some "src/a.py"; additions = some 30; deletions = some 4 }
    ∷ record { filename = some "web/yarn.lock"; additions = some 900; deletions = some 2 }
    ∷ []

lock_name : path_name "web/./yarn.lock/" ≡ "yarn.lock"
unfolding path_name
lock_name = refl

lock_counted :
    summarize_lockfiles (pages (files ∷ []))
    ≡ some (record { additions = 900; deletions = 2; files = 1 })
unfolding summarize_lockfiles
lock_counted = refl

counted_lines : added_by false files ≡ 30
unfolding path_name
counted_lines = refl

size_counts_others_example :
    (t : Stats) × (summarize_lockfiles (pages (files ∷ [])) ≡ some t)
    × (evaluate_size 930 6 2 t
        ≡ some (size_result (added_by false files + deleted_by false files) (files_of false files)))
size_counts_others_example = size_counts_others (pages (files ∷ [])) files refl refl
