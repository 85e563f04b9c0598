-- ===== src/Frontier/Ops.antt =====
-- orchestrator/crawl_policy.py: `pop`, `reconcile_final` and `cancel_queued` of the frontier.
use thorondor.Prelude.{
  ℕ, String, Bool, false, Option, none, some, List, [], ◌∷◌, ◌++◌, ◌==◌, if◌then◌else◌, get_elem?,
  modify, min, lookup, insert, remove,
}
use thorondor.Frontier.{
  UrlPolicy, FrontierRecord, CrawlFrontier, cancelled, add_sources, last_state, is_queued, update,
  mark_fetched, mark_failed, redirect_rejection,
}

unfoldable pub pop_from : CrawlFrontier → List ℕ → CrawlFrontier × Option ℕ
pop_from f [] = (f, none)
pop_from f (i ∷ rest) = (record f { queue = rest }, some i)

unfoldable pub pop : CrawlFrontier → CrawlFrontier × Option ℕ
unfolding pop_from
pop f = pop_from f f.queue

unfoldable pub cancel_waiting : FrontierRecord → FrontierRecord
cancel_waiting r =
    if is_queued (last_state r)
    then record r { reason = some "cancelled"; states = r.states ++ cancelled ∷ [] }
    else r

unfoldable pub cancel_all : List FrontierRecord → List ℕ → List FrontierRecord
cancel_all records [] = records
cancel_all records (i ∷ rest) = cancel_all (modify cancel_waiting records i) rest

unfoldable pub cancel_queued : CrawlFrontier → CrawlFrontier
unfolding cancel_all
cancel_queued f = record f { records = cancel_all f.records f.queue; queue = [] }

unfoldable pub queued_at : CrawlFrontier → ℕ → Bool
queued_at f i = elim (get_elem? f.records i) [ none ↦ false | some r ↦ is_queued (last_state r) ]

-- The sources and the depth of a record that redirects here.
unfoldable pub absorb : FrontierRecord → FrontierRecord → FrontierRecord
unfolding add_sources
absorb from r = record r {
  sources = add_sources from.sources r.sources;
  depth = min r.depth from.depth;
}

unfoldable pub merge_final_record :
    CrawlFrontier → ℕ → FrontierRecord → ℕ → CrawlFrontier × Option ℕ
unfolding mark_failed mark_fetched queued_at
merge_final_record f i r j =
    let g = mark_failed (update f j (absorb r)) i "duplicate_final_url" in
    if queued_at g j then (mark_fetched g j, some j) else (g, none)

abbrev pub points_to : Option ℕ → ℕ → Bool
points_to none i = false
points_to (some j) i = j == i

module _ (p : UrlPolicy) where
  unfoldable pub move : CrawlFrontier → ℕ → FrontierRecord → String → CrawlFrontier
  move f i r url =
      let old = p.key r.url in
      let rest = if points_to (lookup old f.by_key) i then remove old f.by_key else f.by_key in
      record f {
        records = modify (λ s. record s { url = url }) f.records i;
        by_key = insert (p.key url) i rest;
      }

  unfoldable pub reconcile_key :
      CrawlFrontier → ℕ → FrontierRecord → String → Option ℕ → CrawlFrontier × Option ℕ
  unfolding move merge_final_record absorb
  reconcile_key f i r url none = (move f i r url, some i)
  reconcile_key f i r url (some j) =
      if j == i then (move f i r url, some i) else merge_final_record f i r j

  -- The third clause is not reached: no URL is a reason.
  unfoldable pub reconcile_checked :
      CrawlFrontier → ℕ → FrontierRecord → Option String → Option String → CrawlFrontier × Option ℕ
  unfolding reconcile_key mark_failed
  reconcile_checked f i r (some why) normalized = (mark_failed f i why, none)
  reconcile_checked f i r none (some url) = reconcile_key f i r url (lookup (p.key url) f.by_key)
  reconcile_checked f i r none none = (f, none)

  -- `r` is the record at `i`.
  unfoldable pub reconcile_final :
      CrawlFrontier → ℕ → FrontierRecord → String → Bool → Bool → CrawlFrontier × Option ℕ
  unfolding reconcile_checked redirect_rejection
  reconcile_final f i r final_url safe robots_allowed =
      let normalized = p.normalize final_url in
      reconcile_checked f i r (redirect_rejection p normalized r.depth safe robots_allowed)
        normalized
