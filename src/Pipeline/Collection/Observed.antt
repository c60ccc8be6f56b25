-- ===== src/Pipeline/Collection/Observed.antt =====
-- The attempts that `build_manifest_artifacts` observes, under their identities.
use mathlib.Core.List.{append-nil, append_assoc}
use repchat.Prelude.{
  ℕ, zero, suc, ◌≡◌, ◌∙◌, refl, sym, ap, inl, inr, Bool, true, false, ◌&&◌, Option, none, some,
  List, [], ◌∷◌, ◌++◌, Bool-cases, get_elem?, all, all-get, any_of-get, if◌then◌else◌,
}
use repchat.Pipeline.Attempts.{RenderingAttempt}
use repchat.Pipeline.Collection.{
  Texts, texts_eq, Table, keys_of, identity_of, contains_key, observe_attempts, same_keys,
}
use repchat.Pipeline.Collection.Complete.{texts_eq_lem, texts_eq_refl}

-- The attempts under their identities, in their order.
abbrev pub under_identities : List RenderingAttempt → Table RenderingAttempt
under_identities [] = []
under_identities (a ∷ rest) = (identity_of a, a) ∷ under_identities rest

-- No two places of a list hold attempts of one identity.
abbrev pub AreDistinct : List RenderingAttempt → Type 0
AreDistinct attempts =
    (i j : ℕ) (a b : RenderingAttempt)
    → get_elem? attempts i ≡ some a
    → get_elem? attempts j ≡ some b
    → identity_of a ≡ identity_of b
    → i ≡ j

-- Each element of one list stands in the other.
abbrev pub Within : List Texts → List Texts → Type 0
Within ks ls = (i : ℕ) (k : Texts) → get_elem? ks i ≡ some k → (j : ℕ) × (get_elem? ls j ≡ some k)

contains_key-append :
    (t : Table RenderingAttempt) (k l : Texts) (a : RenderingAttempt)
    → contains_key (keys_of (t ++ (l, a) ∷ [])) k ≡ false
    → contains_key (keys_of t) k ≡ false
contains_key-append [] k l a h = refl
contains_key-append ((m, b) ∷ t) k l a h = elim (Bool-cases (texts_eq m k)) [
  | inl e ↦ absurd (let h' = rw e at h in cc)
  | inr e ↦ rw e (contains_key-append t k l a (rw e at h))
]

contains_key-append_last :
    (t : Table RenderingAttempt) (k : Texts) (a : RenderingAttempt)
    → contains_key (keys_of (t ++ (k, a) ∷ [])) k ≡ true
contains_key-append_last [] k a = rw (texts_eq_refl k) refl
contains_key-append_last ((m, b) ∷ t) k a = elim (Bool-cases (texts_eq m k)) [
  | inl e ↦ rw e refl
  | inr e ↦ rw e (contains_key-append_last t k a)
]

-- What one more attempt asks of the observation.
observe_next :
    (b : Bool) (rest : Option (Table RenderingAttempt)) (o : Table RenderingAttempt)
    → (if b then none else rest) ≡ some o
    → (b ≡ false) × (rest ≡ some o)
observe_next true rest o h = cc
observe_next false rest o h = (refl, h)

observe_attempts-eq :
    (attempts : List RenderingAttempt) (t o : Table RenderingAttempt)
    → observe_attempts attempts t ≡ some o
    → o ≡ t ++ under_identities attempts
unfolding observe_attempts
observe_attempts-eq [] t o h = let q : t ≡ o = cc in sym q ∙ sym (append-nil t)
observe_attempts-eq (a ∷ rest) t o h =
    let (_, h') = observe_next (contains_key (keys_of t) (identity_of a)) _ o h in
    observe_attempts-eq rest (t ++ (identity_of a, a) ∷ []) o h'
    ∙ append_assoc t ((identity_of a, a) ∷ []) (under_identities rest)

-- An attempt that is observed has an identity that was not there.
observe_attempts-fresh :
    (attempts : List RenderingAttempt) (t o : Table RenderingAttempt) (i : ℕ) (a : RenderingAttempt)
    → observe_attempts attempts t ≡ some o
    → get_elem? attempts i ≡ some a
    → contains_key (keys_of t) (identity_of a) ≡ false
unfolding observe_attempts
observe_attempts-fresh [] t o i a h e = cc
observe_attempts-fresh (x ∷ rest) t o zero a h e =
    let (fresh, _) = observe_next (contains_key (keys_of t) (identity_of x)) _ o h in
    let same : x ≡ a = cc in rw (← same) fresh
observe_attempts-fresh (x ∷ rest) t o (suc i) a h e =
    let (_, h') = observe_next (contains_key (keys_of t) (identity_of x)) _ o h in
    contains_key-append t (identity_of a) (identity_of x) x
      (observe_attempts-fresh rest (t ++ (identity_of x, x) ∷ []) o i a h' e)

-- A later attempt has another identity than the first.
other_identity :
    (x b : RenderingAttempt) (rest : List RenderingAttempt) (t o : Table RenderingAttempt) (j : ℕ)
    → observe_attempts rest (t ++ (identity_of x, x) ∷ []) ≡ some o
    → get_elem? rest j ≡ some b
    → identity_of x ≡ identity_of b
    → ⊥
other_identity x b rest t o j h e same =
    let fresh = observe_attempts-fresh rest (t ++ (identity_of x, x) ∷ []) o j b h e in
    let taken = contains_key-append_last t (identity_of x) x in
    let again = rw (← same) at fresh in cc

pub observe_attempts-AreDistinct :
    (attempts : List RenderingAttempt) (t o : Table RenderingAttempt)
    → observe_attempts attempts t ≡ some o
    → AreDistinct attempts
unfolding observe_attempts
observe_attempts-AreDistinct [] t o h i j a b ea eb same = cc
observe_attempts-AreDistinct (x ∷ rest) t o h zero zero a b ea eb same = refl
observe_attempts-AreDistinct (x ∷ rest) t o h zero (suc j) a b ea eb same =
    let (_, h') = observe_next (contains_key (keys_of t) (identity_of x)) _ o h in
    let q : x ≡ a = cc in
    absurd (other_identity x b rest t o j h' eb (ap (λ y. identity_of y) q ∙ same))
observe_attempts-AreDistinct (x ∷ rest) t o h (suc i) zero a b ea eb same =
    let (_, h') = observe_next (contains_key (keys_of t) (identity_of x)) _ o h in
    let q : x ≡ b = cc in
    absurd (other_identity x a rest t o i h' ea (ap (λ y. identity_of y) q ∙ sym same))
observe_attempts-AreDistinct (x ∷ rest) t o h (suc i) (suc j) a b ea eb same =
    let (_, h') = observe_next (contains_key (keys_of t) (identity_of x)) _ o h in
    ap (λ n. suc n)
      (observe_attempts-AreDistinct rest (t ++ (identity_of x, x) ∷ []) o h' i j a b ea eb same)

pub observe_attempts-under_identities :
    (attempts : List RenderingAttempt) (o : Table RenderingAttempt)
    → observe_attempts attempts [] ≡ some o
    → o ≡ under_identities attempts
observe_attempts-under_identities attempts o h = observe_attempts-eq attempts [] o h

contains_key-get :
    (ks : List Texts) (k : Texts) → contains_key ks k ≡ true → (i : ℕ) × (get_elem? ks i ≡ some k)
contains_key-get ks k h =
    let (i, (l, e, same)) = any_of-get (λ x. texts_eq x k) ks h in
    (i, e ∙ ap (λ x. some x) (texts_eq_lem l k same))

within : (ks ls : List Texts) → all (contains_key ls) ks ≡ true → Within ks ls
within ks ls h i k e = contains_key-get ls k (all-get (contains_key ls) ks i k h e)

both : (a b : Bool) → (a && b) ≡ true → (a ≡ true) × (b ≡ true)
both true b h = (refl, h)
both false b h = cc

-- Two lists with the same keys hold each other's.
pub same_keys-Within : (ks ls : List Texts) → same_keys ks ls ≡ true → Within ks ls × Within ls ks
same_keys-Within ks ls h =
    let (p, q) = both (all (contains_key ls) ks) _ h in (within ks ls p, within ls ks q)
