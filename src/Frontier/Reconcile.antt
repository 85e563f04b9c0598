-- ===== src/Frontier/Reconcile.antt =====
-- `reconcile_final` keeps the frontier's invariant.
use mathlib.Core.Path.{subst}
use thorondor.Prelude.{
  ℕ, String, ◌≡◌, ◌≢◌, ◌⊎◌, refl, sym, ◌∙◌, ap, inl, inr, Bool, Option, none, some, List, arith,
  get_elem?, modify, All-map, All-modify_at, lookup, insert, remove, lookup-insert, lookup-remove,
  eq_iff, Bool-cases, Option-cases, str_eq, if◌then◌else◌, length-modify, get_elem?-modify_self,
  get_elem?-modify_inv, get_elem?-modify_ne, ==_iff, ◌==◌,
}
use thorondor.Frontier.{
  UrlPolicy, FrontierRecord, CrawlFrontier, update, first_rejection, mark_failed, mark_fetched,
  redirect_rejection,
}
use thorondor.Frontier.Ops.{
  move, reconcile_key, reconcile_checked, reconcile_final, merge_final_record, queued_at, absorb,
}
use thorondor.Frontier.Keeps.{
  IsRecord, IsAdmitted, set_failed-Keeps, set_fetched-Keeps, absorb-Keeps,
}
use thorondor.Frontier.Invariant.{IsFrontier, AdmittedAt, HasKeyAt, update-IsFrontier}

module _ (p : UrlPolicy) {f : CrawlFrontier} (v : IsFrontier p f) (i : ℕ) (r : FrontierRecord)
    (at : get_elem? f.records i ≡ some r) (a : IsAdmitted p r) where
  merge_final_record-IsFrontier : (j : ℕ) → IsFrontier p (merge_final_record f i r j).0
  unfolding merge_final_record mark_failed mark_fetched
  merge_final_record-IsFrontier j =
      let absorbed = update-IsFrontier p (absorb-Keeps p r) v j in
      let merged = update-IsFrontier p (set_failed-Keeps p "duplicate_final_url") absorbed i in
      elim (Bool-cases
        (queued_at (mark_failed (update f j (absorb r)) i "duplicate_final_url") j)) [
          | inl waits ↦ rw waits (update-IsFrontier p (set_fetched-Keeps p) merged j)
          | inr ended ↦ rw ended merged
        ]

  module _ (url : String) (normal : (c : String) × (p.normalize c ≡ some url))
      (scope : p.rejection_reason url r.depth ≡ none)
      (free : (lookup (p.key url) f.by_key ≡ none) ⊎ (lookup (p.key url) f.by_key ≡ some i)) where
    abbrev moved : FrontierRecord
    moved = record r { url = url }

    abbrev moved_records : List FrontierRecord
    moved_records = modify (λ s. record s { url = url }) f.records i

    abbrev index : List (String × ℕ)
    index = insert (p.key url) i (remove (p.key r.url) f.by_key)

    held : lookup (p.key r.url) f.by_key ≡ some i
    held = v.registered i r at a

    moved-IsAdmitted : IsAdmitted p moved
    moved-IsAdmitted = record { path = a.path; normal = normal; in_scope = scope }

    moved_at : get_elem? moved_records i ≡ some moved
    moved_at = get_elem?-modify_self (λ s. record s { url = url }) f.records i r at

    others_stay : (j : ℕ) → i ≢ j → get_elem? moved_records j ≡ get_elem? f.records j
    others_stay j ne = get_elem?-modify_ne (λ s. record s { url = url }) f.records i j ne

    lookup-index :
        (k : String)
        → lookup k index ≡ (
            if str_eq (p.key url) k
            then some i
            else if str_eq (p.key r.url) k
            then none
            else lookup k f.by_key)
    lookup-index k = rw (lookup-insert, lookup-remove)

    moved_numbered : (j : ℕ) (s : FrontierRecord) → get_elem? moved_records j ≡ some s → s.order ≡ j
    moved_numbered j s h =
        let (t, at', same) = get_elem?-modify_inv (λ s. record s { url = url }) f.records i j s h in
        elim same [ inl e ↦ rw e (v.numbered j t at') | inr (_, e) ↦ rw e (v.numbered j t at') ]

    moved_indexed : (k : String) (j : ℕ) → lookup k index ≡ some j → HasKeyAt p moved_records k j
    moved_indexed k j h = elim (Bool-cases (str_eq (p.key url) k)) [
      | inl new ↦
          let same : i ≡ j = ground (arith, lookup-index k, new, h) in
          (moved, rw (← same) moved_at, (eq_iff (p.key url) k).0 new)
      | inr other ↦
          let old : lookup k f.by_key ≡ some j = ground (arith, lookup-index k, other, h) in
          let (s, at', e) = v.indexed k j old in
          let ne : i ≢ j =
            λ q. ground (arith, lookup-index k, other, h, eq_iff (p.key r.url) k, at, at', e, q) in
          (s, others_stay j ne ∙ at', e)
    ]

    moved_registered :
        (j : ℕ) (s : FrontierRecord)
        → get_elem? moved_records j ≡ some s
        → IsAdmitted p s
        → lookup (p.key s.url) index ≡ some j
    moved_registered j s h b = elim (Bool-cases (i == j)) [
      | inl e ↦
          let same : i ≡ j = (==_iff i j).0 e in
          let at' : get_elem? moved_records i ≡ some s =
            subst (λ k. get_elem? moved_records k ≡ some s) (sym same) h in
          ground (
            arith,
            moved_at,
            lookup-index (p.key s.url),
            eq_iff (p.key url) (p.key s.url),
            same,
            at',
          )
      | inr e ↦
          let ne : i ≢ j = ground (arith, e) in
          let old = v.registered j s (sym (others_stay j ne) ∙ h) b in
          ground (
            arith,
            lookup-index (p.key s.url),
            eq_iff (p.key url) (p.key s.url),
            eq_iff (p.key r.url) (p.key s.url),
            held,
            old,
            ne,
            free,
          )
    ]

    moved_waiting : (j : ℕ) → AdmittedAt p f.records j → AdmittedAt p moved_records j
    moved_waiting j (s, at', b) = elim (Bool-cases (i == j)) [
      | inl e ↦ (moved, rw (← ((==_iff i j).0 e)) moved_at, moved-IsAdmitted)
      | inr e ↦ (s, others_stay j (ground (arith, e)) ∙ at', b)
    ]

    move-IsFrontier : IsFrontier p (move p f i r url)
    unfolding move
    move-IsFrontier = rw held (
        rw ((==_iff i i).1 refl) (record {
          bounded = rw length-modify v.bounded;
          shaped =
              All-modify_at (IsRecord p) (λ s. record s { url = url }) f.records i r at
                (inr moved-IsAdmitted) v.shaped;
          numbered = moved_numbered;
          indexed = moved_indexed;
          registered = moved_registered;
          waiting = All-map f.queue moved_waiting v.waiting;
        }))

  reconcile_key-IsFrontier :
      (url : String)
      → (c : String) × (p.normalize c ≡ some url)
      → p.rejection_reason url r.depth ≡ none
      → IsFrontier p (reconcile_key p f i r url (lookup (p.key url) f.by_key)).0
  unfolding reconcile_key
  reconcile_key-IsFrontier url normal scope = elim (Option-cases (lookup (p.key url) f.by_key)) [
    | inl new ↦ rw new (move-IsFrontier url normal scope (inl new))
    | inr (j, known) ↦ elim (Bool-cases (j == i)) [
      | inl e ↦
          rw (known, e)
            (move-IsFrontier url normal scope (inr (known ∙ ap some ((==_iff j i).0 e))))
      | inr e ↦ rw (known, e) (merge_final_record-IsFrontier j)
    ]
  ]

  scope_of_first_rejection :
      (u : String) (safe robots : Bool) (reason : Option String)
      → first_rejection u safe robots reason ≡ none
      → reason ≡ none
  unfolding first_rejection
  scope_of_first_rejection u safe robots reason h = ground arith

  reconcile_checked-IsFrontier :
      (final_url : String) (safe robots : Bool) (normalized reason : Option String)
      → p.normalize final_url ≡ normalized
      → redirect_rejection p normalized r.depth safe robots ≡ reason
      → IsFrontier p (reconcile_checked p f i r reason normalized).0
  unfolding reconcile_checked redirect_rejection mark_failed
  reconcile_checked-IsFrontier u safe robots normalized (some why) from e =
      update-IsFrontier p (set_failed-Keeps p why) v i
  reconcile_checked-IsFrontier u safe robots none none from e = v
  reconcile_checked-IsFrontier u safe robots (some url) none from e =
      reconcile_key-IsFrontier url (u, from)
        (scope_of_first_rejection "unsafe_redirect" safe robots _ e)

  pub reconcile_final-IsFrontier :
      (final_url : String) (safe robots : Bool)
      → IsFrontier p (reconcile_final p f i r final_url safe robots).0
  unfolding reconcile_final
  reconcile_final-IsFrontier u safe robots =
      reconcile_checked-IsFrontier u safe robots _ _ refl refl
