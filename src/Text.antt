-- ===== src/Text.antt =====
-- Python's `str` where the program looks into it: `strip` and the tests on characters.
pub mod Stripped
use Prim.Native.Char.{code}
use repchat.Prelude.{
  ℕ, zero, suc, ◌∙◌, String, ◌≡◌, refl, Bool, Option, none, some, true, false, ◌&&◌, ◌||◌, arith,
  leb, ◌==◌, if◌then◌else◌, Bool-cases, inl, inr,
}

-- `str.isspace` on one character.
unfoldable pub is_space : ℕ → Bool
is_space c =
    leb 9 c && leb c 13
    || leb 28 c && leb c 32
    || c == 133
    || c == 160
    || c == 5760
    || leb 8192 c && leb c 8202
    || c == 8232
    || c == 8233
    || c == 8239
    || c == 8287
    || c == 12288

-- `not value.strip()`
unfoldable pub is_blank : String → Bool
is_blank String.[] = true
is_blank (String.◌∷◌ c s) = is_space (code c) && is_blank s

unfoldable pub lstrip : String → String
lstrip String.[] = String.[]
lstrip (String.◌∷◌ c s) = let rest = lstrip s in if is_space (code c) then rest else String.◌∷◌ c s

-- A space goes when only spaces follow it.
unfoldable pub rstrip : String → String
unfolding is_blank
rstrip String.[] = String.[]
rstrip (String.◌∷◌ c s) =
    let rest = rstrip s in if is_space (code c) && is_blank s then String.[] else String.◌∷◌ c rest

-- `value.strip()`
unfoldable pub strip : String → String
unfolding lstrip rstrip
strip s = rstrip (lstrip s)

is_lower : ℕ → Bool
is_lower c = leb b'a' c && leb c b'z'

is_digit : ℕ → Bool
is_digit c = leb b'0' c && leb c b'9'

-- At most `n` characters, each of `[a-z0-9_]`.
word_tail : ℕ → String → Bool
unfolding is_lower is_digit
word_tail n String.[] = true
word_tail zero (String.◌∷◌ c s) = false
word_tail (suc n) (String.◌∷◌ c s) =
    (is_lower (code c) || is_digit (code c) || code c == b'_') && word_tail n s

-- `re.fullmatch(r"[a-z][a-z0-9_]{0,63}", value)`
unfoldable pub is_machine_code : String → Bool
unfolding word_tail
is_machine_code String.[] = false
is_machine_code (String.◌∷◌ c s) = is_lower (code c) && word_tail 63 s

-- Exactly `n` characters, each of `[0-9a-f]`.
hex_tail : ℕ → String → Bool
unfolding is_digit
hex_tail zero String.[] = true
hex_tail (suc n) String.[] = false
hex_tail zero (String.◌∷◌ c s) = false
hex_tail (suc n) (String.◌∷◌ c s) =
    (is_digit (code c) || leb b'a' (code c) && leb (code c) b'f') && hex_tail n s

-- What is left of a text after a prefix.
after_prefix : String → String → Option String
after_prefix String.[] s = some s
after_prefix (String.◌∷◌ c p) String.[] = none
after_prefix (String.◌∷◌ c p) (String.◌∷◌ d s) =
    let rest = after_prefix p s in if code c == code d then rest else none

-- `re.fullmatch(r"plan-[0-9a-f]{12}", value)`
unfoldable pub is_revision : String → Bool
unfolding hex_tail after_prefix
is_revision s = elim (after_prefix "plan-" s) [ none ↦ false | some t ↦ hex_tail 12 t ]

-- `re.fullmatch(r"[0-9a-f]{64}", value)`
unfoldable pub is_sha256 : String → Bool
unfolding hex_tail
is_sha256 s = hex_tail 64 s

-- Stripping keeps a text that is not blank from becoming blank.
pub is_blank-rstrip : (s : String) → is_blank (rstrip s) ≡ is_blank s
unfolding is_blank rstrip
is_blank-rstrip String.[] = refl
is_blank-rstrip (String.◌∷◌ c s) = elim (Bool-cases (is_space (code c) && is_blank s)) [
  | inl e ↦ rw e
  | inr e ↦ rw e (rw (is_blank-rstrip s) e)
]

is_blank-lstrip : (s : String) → is_blank (lstrip s) ≡ is_blank s
unfolding is_blank lstrip
is_blank-lstrip String.[] = refl
is_blank-lstrip (String.◌∷◌ c s) = ground (arith, is_blank-lstrip s)

pub is_blank-strip : (s : String) → is_blank (strip s) ≡ is_blank s
unfolding strip
is_blank-strip s = is_blank-rstrip (lstrip s) ∙ is_blank-lstrip s
