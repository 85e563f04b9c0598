-- ===== src/Merge/Bests.antt =====
-- orchestrator/merge.py: what `merge_dedup` keeps of the results of one URL.
use thorondor.Prelude.{
  ℕ, Bool, false, Option, none, some, List, [], ◌∷◌, map, ◌≡◌, refl, sym, ap, ◌∙◌, ◌&&◌,
  if◌then◌else◌, String, str_eq, eq_iff, eq_refl, Dict, lookup, insert, lookup-insert, Bool-cases,
  inl, inr, count, count-sort, sort, arith,
}
use thorondor.Merge.{
  contribution_before, DiscoveryContribution, DiscoveryResult, Names, Merging, or_nothing,
  contributions_of, add_contributions, better, merge_result, all_results, merge_all, merged_result,
  result_before, values, merge_dedup,
}

module _ {S : Type 0} (n : Names S) where
  abbrev pub has_key : String → DiscoveryResult S → Bool
  has_key key r = str_eq (n.normalize_url r.url) key

  -- Of the results of a URL the first with the highest score, in their order.
  abbrev pub first_best :
      String
      → Option (DiscoveryResult S)
      → List (DiscoveryResult S × String)
      → Option (DiscoveryResult S)
  first_best key found [] = found
  first_best key found ((r, subquery) ∷ rest) =
      first_best key (if has_key key r then some (better n found r) else found) rest

  -- The contributions of the results of a URL, each kind once, with its highest score.
  abbrev pub all_contributions :
      String
      → List (DiscoveryContribution S)
      → List (DiscoveryResult S × String)
      → List (DiscoveryContribution S)
  all_contributions key known [] = known
  all_contributions key known ((r, subquery) ∷ rest) =
      all_contributions key
        (if has_key key r
          then add_contributions n known (contributions_of n r subquery r.contributions)
          else known)
        rest

  lookup-insert_self :
      {V : Type 0} (k key : String) (f : Option V → V) (d : Dict V)
      → lookup key (insert k (f (lookup k d)) d)
        ≡ (if str_eq k key then some (f (lookup key d)) else lookup key d)
  lookup-insert_self k key f d = rw lookup-insert (elim (Bool-cases (str_eq k key)) [
    | inl e ↦ let same : k ≡ key = (eq_iff k key).0 e in rw (e, same) refl
    | inr e ↦ rw e refl
  ])

  pub merge_all-best :
      (key : String) (results : List (DiscoveryResult S × String)) (m : Merging S)
      → lookup key (merge_all n results m).best ≡ first_best key (lookup key m.best) results
  unfolding merge_all
  merge_all-best key [] m = refl
  merge_all-best key ((r, subquery) ∷ rest) m =
      merge_all-best key rest (merge_result n r subquery m)
      ∙ ap (λ found. first_best key found rest)
          (lookup-insert_self (n.normalize_url r.url) key (λ found. better n found r) m.best)

  abbrev if_known :
      Bool
      → (List (DiscoveryContribution S) → List (DiscoveryContribution S))
      → Option (List (DiscoveryContribution S))
      → List (DiscoveryContribution S)
  if_known here f found = if here then f (or_nothing found) else or_nothing found

  pub merge_all-contributions :
      (key : String) (results : List (DiscoveryResult S × String)) (m : Merging S)
      → or_nothing (lookup key (merge_all n results m).contributions)
        ≡ all_contributions key (or_nothing (lookup key m.contributions)) results
  unfolding merge_all
  merge_all-contributions key [] m = refl
  merge_all-contributions key ((r, subquery) ∷ rest) m =
      merge_all-contributions key rest (merge_result n r subquery m)
      ∙ ap (λ known. all_contributions key known rest)
          (ap or_nothing (
              lookup-insert_self (n.normalize_url r.url) key
                (λ found.
                  add_contributions n (or_nothing found)
                    (contributions_of n r subquery r.contributions))
                m.contributions)
            ∙ elim (Bool-cases (has_key key r)) [ inl e ↦ rw e refl | inr e ↦ rw e refl ])

  -- Every result stands under its key, and no key stands twice.
  abbrev pub Keyed : Dict (DiscoveryResult S) → Type 0
  Keyed [] = Unit
  Keyed ((k, r) ∷ d) = (n.normalize_url r.url ≡ k) × (lookup k d ≡ none) × Keyed d

  insert-Keyed :
      (k : String) (r : DiscoveryResult S) (d : Dict (DiscoveryResult S))
      → n.normalize_url r.url ≡ k
      → Keyed d
      → Keyed (insert k r d)
  unfolding insert lookup
  insert-Keyed k r [] e h = (e, refl, tt)
  insert-Keyed k r ((j, v) ∷ d) e (at, once, h) = elim (Bool-cases (str_eq j k)) [
    | inl x ↦ let same : j ≡ k = (eq_iff j k).0 x in rw x (e ∙ sym same, once, h)
    | inr x ↦
        let apart : str_eq k j ≡ false = ground (arith, x, eq_iff j k, eq_iff k j) in
        rw x (at, rw (lookup-insert, apart) once, insert-Keyed k r d e h)
  ]

  abbrev OfKey : String → Option (DiscoveryResult S) → Type 0
  OfKey k none = Unit
  OfKey k (some r) = n.normalize_url r.url ≡ k

  lookup-OfKey : (k : String) (d : Dict (DiscoveryResult S)) → Keyed d → OfKey k (lookup k d)
  unfolding lookup
  lookup-OfKey k [] h = tt
  lookup-OfKey k ((j, r) ∷ d) (at, once, h) = elim (Bool-cases (str_eq j k)) [
    | inl x ↦ let same : j ≡ k = (eq_iff j k).0 x in rw x (at ∙ same)
    | inr x ↦ rw x (lookup-OfKey k d h)
  ]

  better-OfKey :
      (k : String) (found : Option (DiscoveryResult S)) (r : DiscoveryResult S)
      → n.normalize_url r.url ≡ k
      → OfKey k found
      → n.normalize_url (better n found r).url ≡ k
  better-OfKey k none r e h = e
  better-OfKey k (some existing) r e h = elim (Bool-cases (n.lt existing.score r.score)) [
    | inl x ↦ rw x e
    | inr x ↦ rw x h
  ]

  pub merge_all-Keyed :
      (results : List (DiscoveryResult S × String)) (m : Merging S)
      → Keyed m.best
      → Keyed (merge_all n results m).best
  unfolding merge_all
  merge_all-Keyed [] m h = h
  merge_all-Keyed ((r, subquery) ∷ rest) m h =
      let k = n.normalize_url r.url in
      merge_all-Keyed rest (merge_result n r subquery m) (
        insert-Keyed k (better n (lookup k m.best) r) m.best
          (better-OfKey k (lookup k m.best) r refl (lookup-OfKey k m.best h)) h)

  -- One, if there is a result and the test holds of it.
  abbrev pub one_of : (DiscoveryResult S → Bool) → Option (DiscoveryResult S) → ℕ
  one_of test none = 0
  one_of test (some r) = if test r then 1 else 0

  -- A result with the contributions to its URL.
  abbrev pub with_contributions :
      List (DiscoveryContribution S) → DiscoveryResult S → DiscoveryResult S
  with_contributions known r = record r { contributions = sort (contribution_before n) known }

  count-Keyed :
      (key : String) (test : DiscoveryResult S → Bool)
      (contributions : Dict (List (DiscoveryContribution S))) (d : Dict (DiscoveryResult S))
      → Keyed d
      → count (λ r. has_key key r && test r) (map (merged_result n contributions) (values n d))
        ≡ one_of
            (λ r. test (with_contributions (or_nothing (lookup key contributions)) r))
            (lookup key d)
  unfolding merged_result lookup
  count-Keyed key test contributions [] h = refl
  count-Keyed key test contributions ((k, r) ∷ d) (at, once, h) =
      let others = count-Keyed key test contributions d h in
      elim (Bool-cases (str_eq k key)) [
        | inl x ↦
            let same : k ≡ key = (eq_iff k key).0 x in
            let gone : lookup key d ≡ none = rw (← same) once in
            let nothing = others ∙ ap (one_of _) gone in
            let here : n.normalize_url r.url ≡ key = at ∙ same in
            rw (x, here, eq_refl key) (omega (arith, nothing))
        | inr x ↦ rw (x, at, x) (omega (arith, others))
      ]

  -- How many of the merged results of a URL a test holds of, by the recursions above.
  pub merge_dedup-count :
      (key : String) (test : DiscoveryResult S → Bool)
      (result_sets : List (List (DiscoveryResult S))) (subqueries : List String)
      → count (λ r. has_key key r && test r) (merge_dedup n result_sets subqueries)
        ≡ one_of
            (λ r. test (
              with_contributions
                (all_contributions key [] (all_results n 0 result_sets subqueries))
                r))
            (first_best key none (all_results n 0 result_sets subqueries))
  unfolding merge_dedup
  merge_dedup-count key test result_sets subqueries =
      let results = all_results n 0 result_sets subqueries in
      let start : Merging S = record { best = []; contributions = [] } in
      let m = merge_all n results start in
      let sorted =
        count-sort (λ r. has_key key r && test r) (result_before n)
          (map (merged_result n m.contributions) (values n m.best)) in
      let counted =
        count-Keyed key test m.contributions m.best (merge_all-Keyed results start tt) in
      let known = merge_all-contributions key results start in
      let found = merge_all-best key results start in
      sorted
      ∙ counted
      ∙ ap (λ c. one_of (λ r. test (with_contributions c r)) (lookup key m.best)) known
      ∙ ap (one_of (λ r. test (with_contributions (all_contributions key [] results) r))) found
