-- ===== src/Frontier/Steps.antt =====
-- Each operation of the frontier keeps its invariant.
use thorondor.Prelude.{
  ℕ, ◌+◌, ◌<◌, String, ◌≡◌, refl, inl, inr, Bool, false, Option, none, some, List, [], ◌∷◌, ◌++◌,
  arith, length, All, lookup, Bool-cases, Option-cases,
}
use thorondor.Frontier.{
  UrlPolicy, CrawlFrontier, Discovery, update, discover, discover_url, is_full, first_rejection,
  discover_normalized, record_filtered, admit, discovered, queued, filtered, admitted, fresh,
}
use thorondor.Frontier.Ops.{pop, pop_from, cancel_queued, cancel_all, cancel_waiting}
use thorondor.Frontier.Keeps.{IsRecord, IsAdmitted, merge_discovery-Keeps, cancel_waiting-Keeps}
use thorondor.Frontier.Invariant.{IsFrontier, AdmittedAt, update-IsFrontier}
use thorondor.Frontier.Discover.{
  unindexed-IsFrontier, indexed-IsFrontier, waiting_longer, waiting_new,
}

module _ (p : UrlPolicy) where
  cancel_all-IsFrontier :
      {f : CrawlFrontier} (v : IsFrontier p f) (queue : List ℕ)
      → IsFrontier p (record f { records = cancel_all f.records queue; queue = [] })
  unfolding cancel_all
  cancel_all-IsFrontier {f = f} v [] = record {
    bounded = v.bounded;
    shaped = v.shaped;
    numbered = v.numbered;
    indexed = v.indexed;
    registered = v.registered;
    waiting = tt;
  }
  cancel_all-IsFrontier {f = f} v (i ∷ rest) =
      cancel_all-IsFrontier {f = update f i cancel_waiting}
        (update-IsFrontier p (cancel_waiting-Keeps p) v i) rest

module _ (p : UrlPolicy) {f : CrawlFrontier} (v : IsFrontier p f) where
  not_full : is_full p f ≡ false → length f.records < p.max_discovered_urls
  unfolding is_full
  not_full h = ground arith

  omit_IsFrontier : IsFrontier p (record f { omitted_due_to_limit = f.omitted_due_to_limit + 1 })
  omit_IsFrontier = record {
    bounded = v.bounded;
    shaped = v.shaped;
    numbered = v.numbered;
    indexed = v.indexed;
    registered = v.registered;
    waiting = v.waiting;
  }

  record_filtered-IsFrontier :
      (url : String) (d : Discovery) (why : String) → IsFrontier p (record_filtered p f url d why).0
  unfolding record_filtered
  record_filtered-IsFrontier url d why = elim (Bool-cases (is_full p f)) [
    | inl full ↦ elim (Bool-cases (p.within_url_limit url)) [
      | inl short ↦ rw (short, full) omit_IsFrontier
      | inr long ↦ rw long omit_IsFrontier
    ]
    | inr open_ ↦ elim (Bool-cases (p.within_url_limit url)) [
      | inl short ↦
          rw (short, open_)
            (unindexed-IsFrontier p v
              (record (fresh p f url d) { states = discovered ∷ filtered ∷ []; reason = some why })
              (not_full open_) refl (inl refl) refl)
      | inr long ↦ rw long omit_IsFrontier
    ]
  ]

  admit-IsFrontier :
      (url candidate : String) (d : Discovery) (rejection : Option String)
      → is_full p f ≡ false
      → p.normalize candidate ≡ some url
      → lookup (p.key url) f.by_key ≡ none
      → (rejection ≡ none → p.rejection_reason url d.depth ≡ none)
      → IsFrontier p (admit p f url d rejection).0
  unfolding admit
  admit-IsFrontier url candidate d (some why) open_ from new scope =
      let s = record (fresh p f url d) { states = discovered ∷ filtered ∷ []; reason = some why } in
      let shape : IsRecord p s = inl refl in
      indexed-IsFrontier p v s (not_full open_) refl shape new f.queue
        (waiting_longer p v s (not_full open_) refl shape new)
  admit-IsFrontier url candidate d none open_ from new scope =
      let s = record (fresh p f url d) { states = discovered ∷ admitted ∷ queued ∷ [] } in
      let a : IsAdmitted p s = record {
        path = inl refl;
        normal = (candidate, from);
        in_scope = scope refl;
      } in
      indexed-IsFrontier p v s (not_full open_) refl (inr a) new (f.queue ++ length f.records ∷ [])
        (waiting_new p v s (not_full open_) refl (inr a) new a)

  first_rejection-none :
      (u : String) (safe robots : Bool) (reason : Option String)
      → first_rejection u safe robots reason ≡ none
      → reason ≡ none
  unfolding first_rejection
  first_rejection-none u safe robots reason h = ground arith

  pub discover-IsFrontier :
      (candidate : String) (d : Discovery) → IsFrontier p (discover p f candidate d).0
  unfolding discover discover_url discover_normalized
  discover-IsFrontier candidate d = elim (Option-cases (p.normalize candidate)) [
    | inl bad ↦ rw bad (record_filtered-IsFrontier candidate d "invalid_url")
    | inr (url, from) ↦ elim (Option-cases (lookup (p.key url) f.by_key)) [
      | inl new ↦ elim (Bool-cases (is_full p f)) [
        | inl full ↦ rw (from, new, full) omit_IsFrontier
        | inr open_ ↦
            rw (from, new, open_)
              (admit-IsFrontier url candidate d _ open_ from new
                (first_rejection-none "unsafe_target" d.safe d.robots_allowed _))
      ]
      | inr (i, known) ↦ rw (from, known) (update-IsFrontier p (merge_discovery-Keeps p d) v i)
    ]
  ]

  pop_from-IsFrontier :
      (queue : List ℕ) → All (AdmittedAt p f.records) queue → IsFrontier p (pop_from f queue).0
  unfolding pop_from
  pop_from-IsFrontier [] h = v
  pop_from-IsFrontier (i ∷ rest) h = record {
    bounded = v.bounded;
    shaped = v.shaped;
    numbered = v.numbered;
    indexed = v.indexed;
    registered = v.registered;
    waiting = h.1;
  }

  pub pop-IsFrontier : IsFrontier p (pop f).0
  unfolding pop
  pop-IsFrontier = pop_from-IsFrontier f.queue v.waiting

  pub cancel_queued-IsFrontier : IsFrontier p (cancel_queued f)
  unfolding cancel_queued
  cancel_queued-IsFrontier = cancel_all-IsFrontier p v f.queue
