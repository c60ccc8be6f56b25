-- ===== src/BigQuery/Replace.antt =====
-- The substitutions of `validate_sql_diagnostic`, and the matches of its table pattern. The first
-- argument of a pass over a text is the number of characters of a match that are still passed over.
use Prim.Native.Char.{code}
use repchat.Prelude.{
  ℕ, zero, suc, ◌+◌, ◌-◌, String, Bool, ◌&&◌, ◌||◌, Option, none, some, List, [], ◌∷◌, ◌==◌,
  if◌then◌else◌,
}
use repchat.BigQuery.Scan.{is_name_char}

abbrev plus : ℕ → Option ℕ → Option ℕ
plus n none = none
plus n (some m) = some (n + m)

-- The length of a text up to the end of the first `*/`.
block_end : String → Option ℕ
block_end String.[] = none
block_end (String.◌∷◌ c String.[]) = none
block_end (String.◌∷◌ c (String.◌∷◌ d s)) =
    let rest = block_end (String.◌∷◌ d s) in
    if code c == b'*' && code d == b'/' then some 2 else plus 1 rest

-- The length of a line without its newline.
unfoldable pub line_end : String → ℕ
line_end String.[] = 0
line_end (String.◌∷◌ c s) = let rest = line_end s in if code c == 10 then 0 else suc rest

-- The length of a match of `/\*.*?\*/|--[^\n]*` under `re.S` at the start of a text.
comment_length : String → Option ℕ
unfolding block_end line_end
comment_length String.[] = none
comment_length (String.◌∷◌ c String.[]) = none
comment_length (String.◌∷◌ c (String.◌∷◌ d s)) =
    if code c == b'/' && code d == b'*'
    then plus 2 (block_end s)
    else if code c == b'-' && code d == b'-'
    then some (2 + line_end s)
    else none

-- `re.sub(r"/\*.*?\*/|--[^\n]*", " ", s, flags=re.S)`
strip_comments_from : ℕ → String → String
unfolding comment_length
strip_comments_from n String.[] = String.[]
strip_comments_from (suc n) (String.◌∷◌ c s) = strip_comments_from n s
strip_comments_from zero (String.◌∷◌ c s) = elim (comment_length (String.◌∷◌ c s)) [
  | none ↦ String.◌∷◌ c (strip_comments_from zero s)
  | some n ↦ String.◌∷◌ " " (strip_comments_from (n - 1) s)
]

unfoldable pub strip_comments : String → String
unfolding strip_comments_from
strip_comments s = strip_comments_from 0 s

-- The length of `(?:''|[^'])*'` after an opening quote. Where no quote closes the literal, the match
-- gives back the last pair of quotes and closes at the first of the two.
literal_end : String → Option ℕ
literal_end String.[] = none
literal_end (String.◌∷◌ c String.[]) = if code c == 39 then some 1 else none
literal_end (String.◌∷◌ c (String.◌∷◌ d s)) =
    let pair = literal_end s in
    let rest = literal_end (String.◌∷◌ d s) in
    if code c == 39
    then if code d == 39 then elim pair [ none ↦ some 1 | some n ↦ some (2 + n) ] else some 1
    else elim rest [ none ↦ none | some n ↦ some (1 + n) ]

-- `re.sub(r"'(?:''|[^'])*'", "''", without_comments)`
strip_literals_from : ℕ → String → String
unfolding literal_end
strip_literals_from n String.[] = String.[]
strip_literals_from (suc n) (String.◌∷◌ c s) = strip_literals_from n s
strip_literals_from zero (String.◌∷◌ c s) =
    if code c == 39
    then elim (literal_end s) [
      | none ↦ String.◌∷◌ c (strip_literals_from zero s)
      | some n ↦ String.◌∷◌ "'" (String.◌∷◌ "'" (strip_literals_from n s))
    ]
    else String.◌∷◌ c (strip_literals_from zero s)

unfoldable pub strip_literals : String → String
unfolding strip_literals_from
strip_literals s = strip_literals_from 0 s

-- The number of characters at the start of a text that pass a test.
unfoldable pub run_length : (ℕ → Bool) → String → ℕ
run_length p String.[] = 0
run_length p (String.◌∷◌ c s) = let rest = run_length p s in if p (code c) then suc rest else 0

unfoldable pub drop : ℕ → String → String
drop n String.[] = String.[]
drop zero (String.◌∷◌ c s) = String.◌∷◌ c s
drop (suc n) (String.◌∷◌ c s) = drop n s

unfoldable pub take : ℕ → String → String
take zero s = String.[]
take (suc n) String.[] = String.[]
take (suc n) (String.◌∷◌ c s) = String.◌∷◌ c (take n s)

-- The length of a class of characters, one at least, and of the character `e` after it.
part_length : (ℕ → Bool) → ℕ → String → Option ℕ
unfolding run_length drop
part_length p e s =
    let n = run_length p s in
    elim (drop n s) [
      | String.[] ↦ none
      | String.◌∷◌ c t ↦ if n == 0 then none else if code c == e then some (suc n) else none
    ]

abbrev tick : String → ℕ
tick String.[] = 0
tick (String.◌∷◌ c s) = if code c == b'`' then 1 else 0

-- `[a-zA-Z0-9_*]+` and a backtick if there is one.
last_part : String → Option ℕ
unfolding run_length drop is_name_char
last_part s =
    let n = run_length (λ c. is_name_char c || c == b'*') s in
    if n == 0 then none else some (n + tick (drop n s))

dataset_part : String → Option ℕ
unfolding part_length last_part is_name_char
dataset_part s = elim (part_length is_name_char b'.' s) [
  | none ↦ none
  | some n ↦ plus n (last_part (drop n s))
]

project_part : String → Option ℕ
unfolding part_length dataset_part is_name_char
project_part s = elim (part_length (λ c. is_name_char c || c == b'-') b'.' s) [
  | none ↦ none
  | some n ↦ plus n (dataset_part (drop n s))
]

-- The length of a match of the pattern at the start of a text.
table_length : String → Option ℕ
unfolding project_part
table_length s = plus (tick s) (project_part (drop (tick s) s))

lstrip_ticks : String → String
lstrip_ticks String.[] = String.[]
lstrip_ticks (String.◌∷◌ c s) =
    let rest = lstrip_ticks s in if code c == b'`' then rest else String.◌∷◌ c s

rstrip_ticks : String → String
rstrip_ticks String.[] = String.[]
rstrip_ticks (String.◌∷◌ c s) = elim (rstrip_ticks s) [
  | String.[] ↦ if code c == b'`' then String.[] else String.◌∷◌ c String.[]
  | String.◌∷◌ d t ↦ String.◌∷◌ c (String.◌∷◌ d t)
]

-- A match: `m.group(0).strip("`")`, and the character at `m.end()`.
pub record TableMatch : Type 0 where
  pub reference : String
  pub follower : Option ℕ

head : String → Option ℕ
head String.[] = none
head (String.◌∷◌ c s) = some (code c)

table_match : ℕ → String → TableMatch
unfolding take drop lstrip_ticks rstrip_ticks head
table_match n s = record {
  reference = rstrip_ticks (lstrip_ticks (take n s));
  follower = head (drop n s);
}

-- The matches of `re.finditer`.
table_matches_from : ℕ → String → List TableMatch
unfolding table_length table_match
table_matches_from n String.[] = []
table_matches_from (suc n) (String.◌∷◌ c s) = table_matches_from n s
table_matches_from zero (String.◌∷◌ c s) = elim (table_length (String.◌∷◌ c s)) [
  | none ↦ table_matches_from zero s
  | some n ↦ table_match n (String.◌∷◌ c s) ∷ table_matches_from (n - 1) s
]

unfoldable pub table_matches : String → List TableMatch
unfolding table_matches_from
table_matches s = table_matches_from 0 s
