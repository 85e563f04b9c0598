-- ===== src/Frontier/Ends.antt =====
-- A record that has ended stays as it is, and nothing waits once the queue has been cancelled.
use thorondor.Prelude.{
  ℕ, zero, suc, String, ◌≡◌, refl, ◌∙◌, inl, inr, true, false, Option, none, some, List, [], ◌∷◌,
  arith, get_elem?, modify, get_elem?-modify, get_elem?-modify_self, last_or-concat,
  get_elem?-modify_inv, Bool-cases, ◌==◌,
}
use thorondor.Frontier.{
  UrlPolicy, FrontierRecord, CrawlFrontier, last_state, is_queued, is_final, mark_fetched,
  mark_failed, mark_cancelled, update, set_fetched, set_failed, set_cancelled,
}
use thorondor.Frontier.Ops.{
  pop, pop_from, reconcile_final, reconcile_checked, reconcile_key, merge_final_record, move,
  queued_at, cancel_queued, cancel_all, cancel_waiting, absorb,
}
use thorondor.Frontier.Runs.{
  Step, discovering, popping, reconciling, fetching, failing, cancelling, cancelling_all,
}
use thorondor.Frontier.Admission.{discover_keeps}

-- The record at a position, with the history and the reason of an ended record.
abbrev pub EndedAt : CrawlFrontier → ℕ → FrontierRecord → Type 0
EndedAt g i r =
    (s : FrontierRecord) × (get_elem? g.records i ≡ some s)
    × (s.states ≡ r.states)
    × (s.reason ≡ r.reason)

-- A change that leaves ended records alone.
record Freezes (change : FrontierRecord → FrontierRecord) : Type 0 where
  states : (r : FrontierRecord) → is_final (last_state r) ≡ true → (change r).states ≡ r.states
  reason : (r : FrontierRecord) → is_final (last_state r) ≡ true → (change r).reason ≡ r.reason

set_fetched-Freezes : Freezes set_fetched
unfolding set_fetched
set_fetched-Freezes = record { states = λ r h. rw h; reason = λ r h. rw h }

set_failed-Freezes : (why : String) → Freezes (set_failed why)
unfolding set_failed
set_failed-Freezes why = record { states = λ r h. rw h; reason = λ r h. rw h }

set_cancelled-Freezes : (why : String) → Freezes (set_cancelled why)
unfolding set_cancelled
set_cancelled-Freezes why = record { states = λ r h. rw h; reason = λ r h. rw h }

cancel_waiting-Freezes : Freezes cancel_waiting
unfolding cancel_waiting
cancel_waiting-Freezes = record { states = λ r h. ground arith; reason = λ r h. ground arith }

absorb-Freezes : (from : FrontierRecord) → Freezes (absorb from)
unfolding absorb
absorb-Freezes from = record { states = λ r h. refl; reason = λ r h. refl }

url-Freezes : (url : String) → Freezes (λ r. record r { url = url })
url-Freezes url = record { states = λ r h. refl; reason = λ r h. refl }

module _ (i : ℕ) (r : FrontierRecord) (final : is_final (last_state r) ≡ true) where
  update-EndedAt :
      {change : FrontierRecord → FrontierRecord}
      → Freezes change
      → (f : CrawlFrontier) (j : ℕ) → EndedAt f i r
      → EndedAt (update f j change) i r
  update-EndedAt {change} z f j (s, at, e, q) =
      let (t, at', same) = get_elem?-modify change f.records j i s at in
      let final' : is_final (last_state s) ≡ true = rw e final in
      elim same [
        | inl o ↦ (t, at', rw o e, rw o q)
        | inr o ↦ (t, at', rw (o, z.states s final') e, rw (o, z.reason s final') q)
      ]

  cancel_all-EndedAt :
      (f : CrawlFrontier) (queue : List ℕ)
      → EndedAt f i r
      → EndedAt (record f { records = cancel_all f.records queue; queue = [] }) i r
  unfolding cancel_all
  cancel_all-EndedAt f [] h = h
  cancel_all-EndedAt f (j ∷ rest) h =
      cancel_all-EndedAt (update f j cancel_waiting) rest
        (update-EndedAt cancel_waiting-Freezes f j h)

  pop_from-EndedAt :
      (f : CrawlFrontier) (queue : List ℕ) → EndedAt f i r → EndedAt (pop_from f queue).0 i r
  unfolding pop_from
  pop_from-EndedAt f [] h = h
  pop_from-EndedAt f (j ∷ rest) h = h

  merge-EndedAt :
      (f : CrawlFrontier) (j : ℕ) (from : FrontierRecord) (k : ℕ)
      → EndedAt f i r
      → EndedAt (merge_final_record f j from k).0 i r
  unfolding merge_final_record mark_failed mark_fetched
  merge-EndedAt f j from k h =
      let absorbed = update-EndedAt (absorb-Freezes from) f k h in
      let g = mark_failed (update f k (absorb from)) j "duplicate_final_url" in
      let merged : EndedAt g i r =
        update-EndedAt (set_failed-Freezes "duplicate_final_url") (update f k (absorb from)) j
          absorbed in
      elim (Bool-cases (queued_at g k)) [
        | inl waits ↦ rw waits (update-EndedAt set_fetched-Freezes g k merged)
        | inr ended ↦ rw ended merged
      ]

  module _ (p : UrlPolicy) where
    key-EndedAt :
        (f : CrawlFrontier) (j : ℕ) (from : FrontierRecord) (url : String) (held : Option ℕ)
        → EndedAt f i r
        → EndedAt (reconcile_key p f j from url held).0 i r
    unfolding reconcile_key move
    key-EndedAt f j from url none h = update-EndedAt (url-Freezes url) f j h
    key-EndedAt f j from url (some k) h = elim (Bool-cases (k == j)) [
      | inl e ↦ rw e (update-EndedAt (url-Freezes url) f j h)
      | inr e ↦ rw e (merge-EndedAt f j from k h)
    ]

    checked-EndedAt :
        (f : CrawlFrontier) (j : ℕ) (from : FrontierRecord) (reason normalized : Option String)
        → EndedAt f i r
        → EndedAt (reconcile_checked p f j from reason normalized).0 i r
    unfolding reconcile_checked mark_failed
    checked-EndedAt f j from (some why) normalized h = update-EndedAt (set_failed-Freezes why) f j h
    checked-EndedAt f j from none none h = h
    checked-EndedAt f j from none (some url) h = key-EndedAt f j from url _ h

    Step-EndedAt : {f g : CrawlFrontier} → Step p f g → EndedAt f i r → EndedAt g i r
    unfolding mark_fetched mark_failed mark_cancelled cancel_queued pop reconcile_final
    Step-EndedAt (discovering f c d) (s, at, e, q) =
        let (t, at', (_, same, same', _, _)) = discover_keeps p f c d i s at in
        (t, at', same ∙ e, same' ∙ q)
    Step-EndedAt (popping f) h = pop_from-EndedAt f f.queue h
    Step-EndedAt (reconciling f j from u safe robots at w) h = checked-EndedAt f j from _ _ h
    Step-EndedAt (fetching f j) h = update-EndedAt set_fetched-Freezes f j h
    Step-EndedAt (failing f j why) h = update-EndedAt (set_failed-Freezes why) f j h
    Step-EndedAt (cancelling f j why) h = update-EndedAt (set_cancelled-Freezes why) f j h
    Step-EndedAt (cancelling_all f) h = cancel_all-EndedAt f f.queue h

-- A record that is fetched, filtered, failed or cancelled keeps its history and its reason through
-- every operation of the frontier, on whatever record it works.
pub Step-final :
    (p : UrlPolicy) {f g : CrawlFrontier} (i : ℕ) (r : FrontierRecord)
    → Step p f g
    → get_elem? f.records i ≡ some r
    → is_final (last_state r) ≡ true
    → EndedAt g i r
Step-final p i r step at final = Step-EndedAt i r final p step (r, at, refl, refl)

-- The records at the positions of a list do not wait.
abbrev pub NotWaiting : List FrontierRecord → ℕ → Type 0
NotWaiting records i =
    (r : FrontierRecord) → get_elem? records i ≡ some r → is_queued (last_state r) ≡ false

cancelled_not_queued : (r : FrontierRecord) → is_queued (last_state (cancel_waiting r)) ≡ false
unfolding cancel_waiting
cancelled_not_queued r = elim (Bool-cases (is_queued (last_state r))) [
  | inl waits ↦ rw waits (rw last_or-concat refl)
  | inr ended ↦ rw ended ended
]

cancel_here :
    (records : List FrontierRecord) (i : ℕ) → NotWaiting (modify cancel_waiting records i) i
cancel_here records i s at =
    let (r, old, _) = get_elem?-modify_inv cancel_waiting records i i s at in
    let same : cancel_waiting r ≡ s = cc (get_elem?-modify_self cancel_waiting records i r old) in
    rw (← same) (cancelled_not_queued r)

cancel_elsewhere :
    (records : List FrontierRecord) (i j : ℕ)
    → NotWaiting records i
    → NotWaiting (modify cancel_waiting records j) i
cancel_elsewhere records i j h s at =
    let (r, old, same) = get_elem?-modify_inv cancel_waiting records j i s at in
    elim same [ inl e ↦ rw e (h r old) | inr (_, e) ↦ rw e (cancelled_not_queued r) ]

cancel_all-NotWaiting :
    (records : List FrontierRecord) (queue : List ℕ) (i : ℕ)
    → NotWaiting records i
    → NotWaiting (cancel_all records queue) i
unfolding cancel_all
cancel_all-NotWaiting records [] i h = h
cancel_all-NotWaiting records (j ∷ rest) i h =
    cancel_all-NotWaiting (modify cancel_waiting records j) rest i (cancel_elsewhere records i j h)

cancel_all_queue :
    (records : List FrontierRecord) (queue : List ℕ) (n i : ℕ)
    → get_elem? queue n ≡ some i
    → NotWaiting (cancel_all records queue) i
unfolding cancel_all
cancel_all_queue records [] n i h = λ r at. ground arith
cancel_all_queue records (j ∷ rest) zero i h =
    let same : j ≡ i = ground arith in
    rw same (cancel_all-NotWaiting (modify cancel_waiting records i) rest i (cancel_here records i))
cancel_all_queue records (j ∷ rest) (suc n) i h =
    cancel_all_queue (modify cancel_waiting records j) rest n i h

-- After `cancel_queued` the queue is empty, and no record that was in it is in state `queued`.
pub cancel_queued-NotWaiting :
    (f : CrawlFrontier) (n i : ℕ)
    → get_elem? f.queue n ≡ some i
    → ((cancel_queued f).queue ≡ []) × NotWaiting (cancel_queued f).records i
unfolding cancel_queued
cancel_queued-NotWaiting f n i h = (refl, cancel_all_queue f.records f.queue n i h)
