-- ===== src/Text/Stripped.antt =====
-- What `strip` leaves: a text that it does not change.
use Prim.Native.Char.{code}
use repchat.Prelude.{String, ◌≡◌, ◌∙◌, refl, ap, Bool, true, not, ◌&&◌, inl, inr, arith, Bool-cases}
use repchat.Text.{is_space, is_blank, lstrip, rstrip, strip, is_blank-rstrip}

-- The text does not start with a space.
unfoldable pub is_flush : String → Bool
is_flush String.[] = true
is_flush (String.◌∷◌ c s) = not (is_space (code c))

lstrip-is_flush : (s : String) → is_flush (lstrip s) ≡ true
unfolding is_flush lstrip
lstrip-is_flush String.[] = refl
lstrip-is_flush (String.◌∷◌ c s) = elim (Bool-cases (is_space (code c))) [
  | inl e ↦ rw e (lstrip-is_flush s)
  | inr e ↦ rw e (rw e)
]

lstrip-flush : (s : String) → is_flush s ≡ true → lstrip s ≡ s
unfolding is_flush lstrip
lstrip-flush String.[] h = refl
lstrip-flush (String.◌∷◌ c s) h = ground arith

rstrip-is_flush : (s : String) → is_flush s ≡ true → is_flush (rstrip s) ≡ true
unfolding is_flush rstrip
rstrip-is_flush String.[] h = refl
rstrip-is_flush (String.◌∷◌ c s) h = elim (Bool-cases (is_space (code c) && is_blank s)) [
  | inl e ↦ rw e
  | inr e ↦ rw e h
]

rstrip-rstrip : (s : String) → rstrip (rstrip s) ≡ rstrip s
unfolding rstrip
rstrip-rstrip String.[] = refl
rstrip-rstrip (String.◌∷◌ c s) = elim (Bool-cases (is_space (code c) && is_blank s)) [
  | inl e ↦ rw e
  | inr e ↦ rw e (rw (is_blank-rstrip s) (rw e (ap (λ t. String.◌∷◌ c t) (rstrip-rstrip s))))
]

pub strip-is_flush : (s : String) → is_flush (strip s) ≡ true
unfolding strip
strip-is_flush s = rstrip-is_flush (lstrip s) (lstrip-is_flush s)

-- A text that does not start with a space, once its end is stripped, is stripped.
pub strip-rstrip : (s : String) → is_flush s ≡ true → strip (rstrip s) ≡ rstrip s
unfolding strip
strip-rstrip s h =
    ap (λ t. rstrip t) (lstrip-flush (rstrip s) (rstrip-is_flush s h)) ∙ rstrip-rstrip s

pub strip-strip : (s : String) → strip (strip s) ≡ strip s
unfolding strip
strip-strip s = strip-rstrip (lstrip s) (lstrip-is_flush s)
