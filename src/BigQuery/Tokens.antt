-- ===== src/BigQuery/Tokens.antt =====
-- The tokens of contract_sql_validation.py: `_tokens` with its two regular expressions. The places
-- `start` and `end` of a token are left out: only the lineage of an expression reads them.
use Prim.Native.Char.{code}
use text.Mathlib.Text.{◌==◌ as str_eq}
use repchat.Prelude.{
  ℕ, zero, suc, ◌+◌, ◌-◌, String, Bool, true, false, not, ◌&&◌, ◌||◌, Option, none, some, List, [],
  ◌∷◌, ◌++◌, leb, ◌==◌, if◌then◌else◌,
}
use repchat.BigQuery.Scan.{is_name_char}
use repchat.BigQuery.Replace.{line_end, run_length, drop, take}

abbrev add_length : ℕ → Option ℕ → Option ℕ
add_length n none = none
add_length n (some m) = some (n + m)

-- The length of `(?:\\.|qq|[^q\\])*q` after an opening quote `q`, where `escapes`, and of
-- `(?:qq|[^q])*q` where not. A pair of quotes that leaves no close is given back.
quoted_end : Bool → ℕ → String → Option ℕ
quoted_end escapes q String.[] = none
quoted_end escapes q (String.◌∷◌ c String.[]) = if code c == q then some 1 else none
quoted_end escapes q (String.◌∷◌ c (String.◌∷◌ d s)) =
    let after_two = quoted_end escapes q s in
    let after_one = quoted_end escapes q (String.◌∷◌ d s) in
    if code c == q
    then if code d == q then elim after_two [ none ↦ some 1 | some n ↦ some (2 + n) ] else some 1
    else if escapes && code c == 92
    then if code d == 10 then none else add_length 2 after_two
    else add_length 1 after_one

-- The length of `[\s\S]*?(?:\*/|$)`; `$` is the end of the text, or the newline that ends it.
block_stop : String → ℕ
block_stop String.[] = 0
block_stop (String.◌∷◌ c String.[]) = if code c == 10 then 0 else 1
block_stop (String.◌∷◌ c (String.◌∷◌ d s)) =
    let rest = block_stop (String.◌∷◌ d s) in
    if code c == b'*' && code d == b'/' then 2 else suc rest

-- The length of a match of `_MASK` at the start of a text.
masked_length : String → Option ℕ
unfolding quoted_end block_stop line_end
masked_length String.[] = none
masked_length (String.◌∷◌ c String.[]) = none
masked_length (String.◌∷◌ c (String.◌∷◌ d s)) =
    if code c == b'-' && code d == b'-'
    then some (2 + line_end s)
    else if code c == b'/' && code d == b'*'
    then some (2 + block_stop s)
    else if code c == 39
    then add_length 1 (quoted_end true 39 (String.◌∷◌ d s))
    else if code c == 34
    then add_length 1 (quoted_end true 34 (String.◌∷◌ d s))
    else none

mask_from : ℕ → String → String
unfolding masked_length
mask_from n String.[] = String.[]
mask_from (suc n) (String.◌∷◌ c s) = String.◌∷◌ " " (mask_from n s)
mask_from zero (String.◌∷◌ c s) = elim (masked_length (String.◌∷◌ c s)) [
  | none ↦ String.◌∷◌ c (mask_from zero s)
  | some n ↦ String.◌∷◌ " " (mask_from (n - 1) s)
]

-- `_MASK.sub(lambda match: " " * len(match.group(0)), sql)`
unfoldable pub mask : String → String
unfolding mask_from
mask s = mask_from 0 s

starts_identifier : ℕ → Bool
unfolding is_name_char
starts_identifier c = is_name_char c && not (leb b'0' c && leb c b'9')

-- `_IDENTIFIER.fullmatch(value)`
unfoldable pub is_identifier : String → Bool
unfolding starts_identifier run_length drop is_name_char
is_identifier String.[] = false
is_identifier (String.◌∷◌ c s) =
    starts_identifier (code c) && str_eq (drop (run_length is_name_char s) s) ""

-- The length of a match of `_TOKEN` at the start of a text.
token_length : String → Option ℕ
unfolding quoted_end starts_identifier run_length is_name_char
token_length String.[] = none
token_length (String.◌∷◌ c s) =
    if code c == b'`'
    then add_length 1 (quoted_end false b'`' s)
    else if starts_identifier (code c)
    then some (suc (run_length is_name_char s))
    else if code c == b'(' || code c == b')' || code c == b'.' || code c == b','
    then some 1
    else none

raws_from : ℕ → String → List String
unfolding token_length take
raws_from n String.[] = []
raws_from (suc n) (String.◌∷◌ c s) = raws_from n s
raws_from zero (String.◌∷◌ c s) = elim (token_length (String.◌∷◌ c s)) [
  | none ↦ raws_from zero s
  | some n ↦ take n (String.◌∷◌ c s) ∷ raws_from (n - 1) s
]

-- The matches of `_TOKEN.finditer`.
unfoldable pub raws : String → List String
unfolding raws_from
raws s = raws_from 0 s

-- `value[:-1].replace("``", "`")`
unquote : String → String
unquote String.[] = String.[]
unquote (String.◌∷◌ c String.[]) = String.[]
unquote (String.◌∷◌ c (String.◌∷◌ d String.[])) = String.◌∷◌ c String.[]
unquote (String.◌∷◌ c (String.◌∷◌ d (String.◌∷◌ e s))) =
    let after_two = unquote (String.◌∷◌ e s) in
    let after_one = unquote (String.◌∷◌ d (String.◌∷◌ e s)) in
    if code c == b'`' && code d == b'`' then String.◌∷◌ c after_two else String.◌∷◌ c after_one

-- Where a token stands: the groups that are open, each with the number of its branch.
abbrev pub Scope : Type 0
Scope = List (ℕ × ℕ)

pub record Token : Type 0 where
  pub value : String
  pub quoted : Bool
  pub scope : Scope

is_quoted : String → Bool
is_quoted String.[] = false
is_quoted (String.◌∷◌ c s) = code c == b'`'

token_value : String → String
unfolding unquote is_quoted
token_value String.[] = String.[]
token_value (String.◌∷◌ c s) = if code c == b'`' then unquote s else String.◌∷◌ c s

-- `if len(scope) > 1: scope.pop()`
pop : Scope → Scope
pop [] = []
pop (x ∷ []) = x ∷ []
pop (x ∷ y ∷ []) = x ∷ []
pop (x ∷ y ∷ z ∷ rest) = x ∷ pop (y ∷ z ∷ rest)

-- `scope[-1] = (current_group, branch + 1)`
next_branch : Scope → Scope
next_branch [] = []
next_branch ((g, b) ∷ []) = (g, b + 1) ∷ []
next_branch (x ∷ y ∷ rest) = x ∷ next_branch (y ∷ rest)

-- What `str.upper` does is a parameter.
module _ (upper : String → String) where
  -- The scope of the tokens after one, which stands in the scope; `group` is the number of groups.
  abbrev after_token : String → Scope → ℕ → Scope
  after_token raw scope group =
      if str_eq raw "("
      then scope ++ (group + 1, 0) ∷ []
      else if str_eq (upper raw) "UNION"
      then next_branch scope
      else scope

  tokens_from : List String → Scope → ℕ → List Token
  unfolding pop next_branch token_value is_quoted
  tokens_from [] scope group = []
  tokens_from (raw ∷ rest) scope group =
      let closes = str_eq raw ")" in
      let here = if closes then pop scope else scope in
      record { value = token_value raw; quoted = is_quoted raw; scope = here }
      ∷ tokens_from rest (if closes then here else after_token raw here group)
          (if str_eq raw "(" then group + 1 else group)

  -- `_tokens(sql)`
  unfoldable pub tokens : String → List Token
  unfolding tokens_from raws mask
  tokens sql = tokens_from (raws (mask sql)) ((0, 0) ∷ []) 0
