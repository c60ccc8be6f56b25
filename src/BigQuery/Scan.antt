-- ===== src/BigQuery/Scan.antt =====
-- The regular expressions of bigquery_execution.py, as functions on a text. A search that is the
-- same from each place of a text is a recursion on it; a match that is replaced or skipped is a
-- number of characters to pass over.
use Prim.Native.Char.{code}
use repchat.Prelude.{
  ℕ, ◌+◌, String, Bool, true, false, not, ◌&&◌, ◌||◌, Option, none, some, List, [], ◌∷◌, leb, ◌==◌,
  any_of, if◌then◌else◌,
}
use repchat.Text.{is_space, lstrip}

-- A letter under `re.I`: the case folding of ASCII, and the three letters beyond it that fold to one.
unfoldable pub fold_case : ℕ → ℕ
fold_case c =
    if leb b'A' c && leb c b'Z'
    then c + 32
    else if c == 383
    then b's'
    else if c == 304 || c == 305
    then b'i'
    else if c == 8490
    then b'k'
    else c

abbrev is_decimal : ℕ → Bool
is_decimal c = leb b'0' c && leb c b'9'

-- `[a-zA-Z0-9_]`
unfoldable pub is_name_char : ℕ → Bool
is_name_char c = leb b'a' c && leb c b'z' || leb b'A' c && leb c b'Z' || is_decimal c || c == b'_'

-- What is left of a text after a pattern in lower case, under `re.I`.
unfoldable pub after_folded : String → String → Option String
unfolding fold_case
after_folded String.[] s = some s
after_folded (String.◌∷◌ p ps) String.[] = none
after_folded (String.◌∷◌ p ps) (String.◌∷◌ c s) =
    let rest = after_folded ps s in if code p == fold_case (code c) then rest else none

-- `\w` where a character beyond ASCII is a letter or a digit by `wide_word`.
unfoldable pub is_word : (ℕ → Bool) → ℕ → Bool
unfolding is_name_char
is_word wide_word c = is_name_char c || leb 128 c && wide_word c

unfoldable pub starts_word : (ℕ → Bool) → String → Bool
unfolding is_word
starts_word wide_word String.[] = false
starts_word wide_word (String.◌∷◌ c s) = is_word wide_word (code c)

-- `keyword\b` at the start of a text. The last letter of every keyword has no other letter that folds
-- to it, so it is a word character.
unfoldable pub has_keyword : (ℕ → Bool) → String → String → Bool
unfolding after_folded starts_word
has_keyword wide_word keyword s = elim (after_folded keyword s) [
  | none ↦ false
  | some t ↦ not (starts_word wide_word t)
]

abbrev pub differs : Bool → Bool → Bool
differs true b = not b
differs false b = b

-- `\b` before a match of `p`, which takes at least one character, somewhere in a text; the first
-- argument is whether the character before the text is a word character.
unfoldable pub search_word : (ℕ → Bool) → (String → Bool) → Bool → String → Bool
unfolding is_word
search_word wide_word p before String.[] = false
search_word wide_word p before (String.◌∷◌ c s) =
    let here = is_word wide_word (code c) in
    differs before here && p (String.◌∷◌ c s) || search_word wide_word p here s

abbrev pub forbidden_keywords : List String
forbidden_keywords =
    "insert" ∷ "update" ∷ "delete" ∷ "drop" ∷ "create" ∷ "merge" ∷ "alter" ∷ "call" ∷ "export"
    ∷ "grant" ∷ []

-- `\b(insert|update|…|grant)\b`
unfoldable pub has_forbidden : (ℕ → Bool) → String → Bool
unfolding search_word has_keyword
has_forbidden wide_word s =
    search_word wide_word (λ t. any_of (λ k. has_keyword wide_word k t) forbidden_keywords) false s

-- `^(select|with)\b`
unfoldable pub is_select : (ℕ → Bool) → String → Bool
unfolding has_keyword
is_select wide_word s = has_keyword wide_word "select" s || has_keyword wide_word "with" s

abbrev head_is : ℕ → String → Bool
head_is n String.[] = false
head_is n (String.◌∷◌ c s) = code c == n

-- `[a-zA-Z0-9_]*\.\*` under `re.I`
name_star : String → Bool
unfolding fold_case is_name_char
name_star String.[] = false
name_star (String.◌∷◌ c s) =
    code c == b'.' && head_is b'*' s || is_name_char (fold_case (code c)) && name_star s

-- `(?:[a-zA-Z_][a-zA-Z0-9_]*\.)?\*` under `re.I`
qualified_star : String → Bool
unfolding name_star fold_case is_name_char
qualified_star String.[] = false
qualified_star (String.◌∷◌ c s) =
    code c == b'*' || is_name_char (fold_case (code c)) && not (is_decimal (code c)) && name_star s

-- `\s+` before what is left.
after_spaces : String → Option String
unfolding lstrip
after_spaces String.[] = none
after_spaces (String.◌∷◌ c s) = if is_space (code c) then some (lstrip s) else none

distinct_star : Option String → Bool
unfolding qualified_star
distinct_star none = false
distinct_star (some s) = qualified_star s

-- `(?:distinct\s+)?(?:[a-zA-Z_][a-zA-Z0-9_]*\.)?\*`
selected_star : Option String → Bool
unfolding qualified_star distinct_star after_spaces after_folded
selected_star none = false
selected_star (some s) =
    qualified_star s
    || elim (after_folded "distinct" s) [ none ↦ false | some t ↦ distinct_star (after_spaces t) ]

-- `\bselect\s+(?:distinct\s+)?(?:[a-zA-Z_][a-zA-Z0-9_]*\.)?\*`
unfoldable pub has_select_star : (ℕ → Bool) → String → Bool
unfolding search_word selected_star after_spaces after_folded
has_select_star wide_word s =
    search_word wide_word
      (λ t. elim (after_folded "select" t) [
        | none ↦ false
        | some u ↦ selected_star (after_spaces u)
      ])
      false s

-- `.*` before a match of `p`.
dot_star : (String → Bool) → String → Bool
dot_star p String.[] = p String.[]
dot_star p (String.◌∷◌ c s) = p (String.◌∷◌ c s) || not (code c == 10) && dot_star p s

-- A pattern in lower case under `re.I`, and then a match of `p`.
then_match : String → (String → Bool) → String → Bool
unfolding after_folded
then_match w p s = elim (after_folded w s) [ none ↦ false | some t ↦ p t ]

limit_here : String → Bool
unfolding dot_star then_match
limit_here s =
    then_match "exceeded limit for bytes billed" (λ t. true) s
    || then_match "maximum"
        (dot_star (then_match "bytes" (dot_star (then_match "billed" (λ t. true))))) s
    || then_match "bytes billed" (dot_star (then_match "limit" (λ t. true))) s

-- `(?:exceeded limit for bytes billed|maximum.*bytes.*billed|bytes billed.*limit)` under `re.I`
unfoldable pub is_scan_limit : String → Bool
unfolding limit_here
is_scan_limit String.[] = false
is_scan_limit (String.◌∷◌ c s) = limit_here (String.◌∷◌ c s) || is_scan_limit s
