-- ===== src/PageCache/Rows.antt =====
-- orchestrator/page_cache.py: the rows of the two tables, where a cache key stands at most once.
use thorondor.Prelude.{
  Bool, false, Option, none, some, [], ◌∷◌, ◌≡◌, refl, ◌∙◌, if◌then◌else◌, String, str_eq, eq_iff,
  Dict, lookup, insert, remove, lookup-insert, lookup-remove, Bool-cases, inl, inr, arith,
}
use thorondor.PageCache.{PageRow, select_pages}

abbrev pub HasUniqueKeys {ℓ} : {V : Type ℓ} → Dict V → Type ℓ
HasUniqueKeys [] = Unit
HasUniqueKeys ((k, v) ∷ rest) = (lookup k rest ≡ none) × HasUniqueKeys rest

module _ {ℓ} {V : Type ℓ} where
  pub insert-HasUniqueKeys :
      (k : String) (v : V) (d : Dict V) → HasUniqueKeys d → HasUniqueKeys (insert k v d)
  unfolding insert lookup
  insert-HasUniqueKeys k v [] h = (refl, tt)
  insert-HasUniqueKeys k v ((j, w) ∷ d) (new, h) = elim (Bool-cases (str_eq j k)) [
    | inl e ↦ rw e (new, h)
    | inr e ↦
        let other : str_eq k j ≡ false = ground (arith, e, eq_iff j k, eq_iff k j) in
        let fresh : lookup j (insert k v d) ≡ none = lookup-insert k j v d ∙ rw other new in
        rw e (fresh, insert-HasUniqueKeys k v d h)
  ]

  lookup_removed : (k j : String) (d : Dict V) → lookup j d ≡ none → lookup j (remove k d) ≡ none
  lookup_removed k j d h = elim (Bool-cases (str_eq k j)) [
    | inl e ↦ rw (lookup-remove, e) refl
    | inr e ↦ rw (lookup-remove, e) h
  ]

  pub remove-HasUniqueKeys :
      (k : String) (d : Dict V) → HasUniqueKeys d → HasUniqueKeys (remove k d)
  unfolding remove
  remove-HasUniqueKeys k [] h = tt
  remove-HasUniqueKeys k ((j, w) ∷ d) (new, h) = elim (Bool-cases (str_eq j k)) [
    | inl e ↦ rw e (remove-HasUniqueKeys k d h)
    | inr e ↦ rw e (lookup_removed k j d new, remove-HasUniqueKeys k d h)
  ]

abbrev pub keep_if : (PageRow → Bool) → Option PageRow → Option PageRow
keep_if test none = none
keep_if test (some row) = if test row then some row else none

keep_if-none : (test : PageRow → Bool) (o : Option PageRow) → o ≡ none → keep_if test o ≡ none
keep_if-none test o h = rw h refl

pub lookup-select_pages :
    (test : PageRow → Bool) (k : String) (d : Dict PageRow)
    → HasUniqueKeys d
    → lookup k (select_pages test d) ≡ keep_if test (lookup k d)
unfolding select_pages lookup
lookup-select_pages test k [] h = refl
lookup-select_pages test k ((j, row) ∷ d) (new, h) =
    let later = lookup-select_pages test k d h in
    elim (Bool-cases (test row)) [
      | inl t ↦ elim (Bool-cases (str_eq j k)) [
        | inl e ↦ rw (t, e, t) refl
        | inr e ↦ rw (t, e) later
      ]
      | inr t ↦ elim (Bool-cases (str_eq j k)) [
        | inl e ↦
            let same : j ≡ k = (eq_iff j k).0 e in
            let gone : lookup k d ≡ none = rw (← same) new in
            rw (t, e, t) (later ∙ keep_if-none test (lookup k d) gone)
        | inr e ↦ rw (t, e) later
      ]
    ]

pub select_pages-HasUniqueKeys :
    (test : PageRow → Bool) (d : Dict PageRow)
    → HasUniqueKeys d
    → HasUniqueKeys (select_pages test d)
unfolding select_pages
select_pages-HasUniqueKeys test [] h = tt
select_pages-HasUniqueKeys test ((j, row) ∷ d) (new, h) = elim (Bool-cases (test row)) [
  | inl e ↦ rw e (
    lookup-select_pages test j d h ∙ keep_if-none test (lookup j d) new,
    select_pages-HasUniqueKeys test d h,
  )
  | inr e ↦ rw e (select_pages-HasUniqueKeys test d h)
]
