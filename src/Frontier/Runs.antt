-- ===== src/Frontier/Runs.antt =====
-- Every sequence of the frontier's operations, as the site pipeline makes them, and what holds of
-- each frontier that it reaches. `reconcile_final` is called with a record whose last state is
-- `queued`.
use thorondor.Prelude.{ℕ, String, ◌≡◌, inl, inr, Bool, true, some, arith, get_elem?, All-get_elem?}
use thorondor.Frontier.{
  UrlPolicy, FrontierRecord, CrawlFrontier, Discovery, empty, discover, last_state, is_queued,
  mark_fetched, mark_failed, mark_cancelled,
}
use thorondor.Frontier.Ops.{pop, reconcile_final, cancel_queued}
use thorondor.Frontier.Keeps.{
  IsRecord, IsAdmitted, set_fetched-Keeps, set_failed-Keeps, set_cancelled-Keeps,
}
use thorondor.Frontier.Invariant.{IsFrontier, update-IsFrontier, empty-IsFrontier}
use thorondor.Frontier.Steps.{discover-IsFrontier, pop-IsFrontier, cancel_queued-IsFrontier}
use thorondor.Frontier.Reconcile.{reconcile_final-IsFrontier}

module _ (p : UrlPolicy) where
  pub data Step : CrawlFrontier → CrawlFrontier → Type 0 where
    discovering :
        (f : CrawlFrontier) (candidate : String) (d : Discovery)
        → Step f (discover p f candidate d).0
    popping : (f : CrawlFrontier) → Step f (pop f).0
    reconciling :
        (f : CrawlFrontier) (i : ℕ) (r : FrontierRecord) (final_url : String) (safe robots : Bool)
        → get_elem? f.records i ≡ some r
        → is_queued (last_state r) ≡ true
        → Step f (reconcile_final p f i r final_url safe robots).0
    fetching : (f : CrawlFrontier) (i : ℕ) → Step f (mark_fetched f i)
    failing : (f : CrawlFrontier) (i : ℕ) (why : String) → Step f (mark_failed f i why)
    cancelling : (f : CrawlFrontier) (i : ℕ) (why : String) → Step f (mark_cancelled f i why)
    cancelling_all : (f : CrawlFrontier) → Step f (cancel_queued f)

  pub data Reach : CrawlFrontier → Type 0 where
    start : Reach empty
    next : {f g : CrawlFrontier} → Reach f → Step f g → Reach g

  queued-IsAdmitted :
      (r : FrontierRecord) → IsRecord p r → is_queued (last_state r) ≡ true → IsAdmitted p r
  queued-IsAdmitted r (inl f) h = absurd (ground arith)
  queued-IsAdmitted r (inr a) h = a

  Step-IsFrontier : {f g : CrawlFrontier} → Step f g → IsFrontier p f → IsFrontier p g
  unfolding mark_fetched mark_failed mark_cancelled
  Step-IsFrontier (discovering f c d) v = discover-IsFrontier p v c d
  Step-IsFrontier (popping f) v = pop-IsFrontier p v
  Step-IsFrontier (reconciling f i r u safe robots at h) v =
      reconcile_final-IsFrontier p v i r at
        (queued-IsAdmitted r (All-get_elem? (IsRecord p) f.records i r v.shaped at) h) u safe robots
  Step-IsFrontier (fetching f i) v = update-IsFrontier p (set_fetched-Keeps p) v i
  Step-IsFrontier (failing f i why) v = update-IsFrontier p (set_failed-Keeps p why) v i
  Step-IsFrontier (cancelling f i why) v = update-IsFrontier p (set_cancelled-Keeps p why) v i
  Step-IsFrontier (cancelling_all f) v = cancel_queued-IsFrontier p v

  -- Every frontier that the operations reach from the empty one satisfies the invariant: it has at
  -- most `max_discovered_urls` records; each was filtered at once, or was admitted with a normalized
  -- URL in the policy's scope and has ended at most once; the index by keys is exact on admitted
  -- records; and only admitted records wait.
  pub Reach-IsFrontier : {f : CrawlFrontier} → Reach f → IsFrontier p f
  Reach-IsFrontier start = empty-IsFrontier p
  Reach-IsFrontier (next r s) = Step-IsFrontier s (Reach-IsFrontier r)

  -- In every reachable frontier, two admitted records whose URLs have one deduplication key are one
  -- record, also after redirects have moved records to other URLs.
  pub Reach-unique :
      {f : CrawlFrontier} (i j : ℕ) (r s : FrontierRecord)
      → Reach f
      → get_elem? f.records i ≡ some r
      → get_elem? f.records j ≡ some s
      → IsAdmitted p r
      → IsAdmitted p s
      → p.key r.url ≡ p.key s.url
      → i ≡ j
  Reach-unique {f} i j r s reach at at' a b same =
      let v = Reach-IsFrontier reach in
      let here = v.registered i r at a in
      let there = v.registered j s at' b in ground (arith, here, there, same)
