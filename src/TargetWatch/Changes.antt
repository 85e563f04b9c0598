-- ===== src/TargetWatch/Changes.antt =====
-- orchestrator/target_watch.py: when an element is unchanged.
use mathlib.Core.Path.{subst}
use thorondor.Prelude.{
  Bool, true, Option, none, some, [], ◌∷◌, ◌≡◌, ◌↔◌, refl, sym, ap, ◌∙◌, ◌&&◌, String, str_eq,
  eq_iff, Dict, lookup, Bool-cases, Option-cases, inl, inr, arith,
}
use thorondor.PageCache.{StoredTargetSnapshot}
use thorondor.TargetWatch.Verdicts.{same_text, agree, same_attributes, is_same}

pub both_left : (a b : Bool) → a && b ≡ true → a ≡ true
both_left a b h = ground (arith, h)

pub both_right : (a b : Bool) → a && b ≡ true → b ≡ true
both_right a b h = ground (arith, h)

-- The text and the value of every attribute are as before.
abbrev pub Unchanged : StoredTargetSnapshot → StoredTargetSnapshot → Type 0
Unchanged a b =
    (a.text ≡ b.text) × ((key : String) → lookup key a.attributes ≡ lookup key b.attributes)

same_text_iff : (a b : Option String) → (same_text a b ≡ true) ↔ (a ≡ b)
same_text_iff none none = ((λ h. refl), (λ h. refl))
same_text_iff none (some b) = ((λ h. absurd cc), (λ h. absurd cc))
same_text_iff (some a) none = ((λ h. absurd cc), (λ h. absurd cc))
same_text_iff (some a) (some b) =
    ((λ h. ap some ((eq_iff a b).0 h)), (λ h. let same : a ≡ b = cc in (eq_iff a b).1 same))

agree-lookup :
    (a b d : Dict String) (key value : String)
    → agree a b d ≡ true
    → lookup key d ≡ some value
    → lookup key a ≡ lookup key b
unfolding lookup
agree-lookup a b [] key value h at = absurd cc
agree-lookup a b ((k, v) ∷ d) key value h at = elim (Bool-cases (str_eq k key)) [
  | inl e ↦
      let same : k ≡ key = (eq_iff k key).0 e in
      let first = (same_text_iff (lookup k a) (lookup k b)).0 (both_left _ _ h) in
      subst (λ z. lookup z a ≡ lookup z b) same first
  | inr e ↦ agree-lookup a b d key value (both_right _ _ h) (rw e at at)
]

lookup-agree :
    (a b d : Dict String) → ((key : String) → lookup key a ≡ lookup key b) → agree a b d ≡ true
lookup-agree a b [] h = refl
lookup-agree a b ((k, v) ∷ d) h =
    rw ((same_text_iff (lookup k a) (lookup k b)).1 (h k)) (lookup-agree a b d h)

same_attributes-lookup :
    (a b : Dict String) (key : String) → same_attributes a b ≡ true → lookup key a ≡ lookup key b
same_attributes-lookup a b key h = elim (Option-cases (lookup key a)) [
  | inl gone ↦ elim (Option-cases (lookup key b)) [
    | inl none_ ↦ gone ∙ sym none_
    | inr (v, at) ↦ agree-lookup a b b key v (both_right _ _ h) at
  ]
  | inr (v, at) ↦ agree-lookup a b a key v (both_left _ _ h) at
]

pub is_same_iff : (a b : StoredTargetSnapshot) → (is_same a b ≡ true) ↔ Unchanged a b
is_same_iff a b = (
  (λ h. (
    (same_text_iff a.text b.text).0 (both_left _ _ h),
    (λ key. same_attributes-lookup a.attributes b.attributes key (both_right _ _ h)),
  )),
  (λ (t, all).
      let one = lookup-agree a.attributes b.attributes a.attributes all in
      let two = lookup-agree a.attributes b.attributes b.attributes all in
      rw ((same_text_iff a.text b.text).1 t, one, two) refl),
)
