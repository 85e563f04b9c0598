-- ===== src/Frontier/Tests.antt =====
-- The frontier on concrete URLs: runs by evaluation, and the theorems at inputs that meet their
-- hypotheses.
use thorondor.Prelude.{
  ℕ, ◌≤◌, String, ◌≡◌, ◌↔◌, refl, inl, true, Option, none, some, List, [], ◌∷◌, ◌++◌, arith, length,
  get_elem?, ltb, str_eq, if◌then◌else◌, lookup, insert, remove,
}
use thorondor.Frontier.{
  UrlPolicy, FrontierRecord, CrawlFrontier, Discovery, CrawlState, link, discovered, admitted,
  queued, fetched, filtered, failed, empty, discover, mark_fetched, mark_failed, set_fetched,
  set_failed,
}
use thorondor.Frontier.Ops.{pop, reconcile_final, cancel_queued, cancel_waiting}
use thorondor.Frontier.Keeps.{IsAdmitted}
use thorondor.Frontier.Invariant.{IsFrontier}
use thorondor.Frontier.Runs.{Step, Reach, start, next, discovering, Reach-IsFrontier, Reach-unique}
use thorondor.Frontier.Admission.{Same, Passes, discover_keeps, discover_admits_iff}
use thorondor.Frontier.Ends.{EndedAt, NotWaiting, Step-final, cancel_queued-NotWaiting}

abbrev too_deep : String → ℕ → Option String
too_deep url depth = if ltb 1 depth then some "depth_exceeded" else none

too_deep_mono : (url : String) (d e : ℕ) → d ≤ e → too_deep url e ≡ none → too_deep url d ≡ none
too_deep_mono url d e h g = ground arith

-- Three records at most, "bad" is no URL, and "/a" and "/a/" have one key.
abbrev policy : UrlPolicy
policy = record {
  max_discovered_urls = 3;
  normalize = λ c. if str_eq c "bad" then none else some c;
  rejection_reason = too_deep;
  key = λ u. if str_eq u "/a/" then "/a" else u;
  within_url_limit = λ u. true;
  scope_mono = too_deep_mono;
}

abbrev found : ℕ → Discovery
found depth = record {
  source = link;
  depth = depth;
  safe = true;
  robots_allowed = true;
  modified_at = none;
  priority = none;
}

abbrev one : CrawlFrontier
one = (discover policy empty "/a" (found 1)).0

abbrev two : CrawlFrontier
two = (discover policy one "/b" (found 1)).0

run : Unit {0}
unfolding discover pop reconcile_final cancel_queued mark_fetched mark_failed set_fetched set_failed
    lookup insert remove cancel_waiting
run = tt

histories_of : List FrontierRecord → List (String × List CrawlState)
histories_of [] = []
histories_of (r ∷ rest) = (r.url, r.states) ∷ histories_of rest

discover_run :
    histories_of (discover policy (discover policy two "bad" (found 1)).0 "/c" (found 1)).0.records
    ≡ ("/a", discovered ∷ admitted ∷ queued ∷ [])
      ∷ ("/b", discovered ∷ admitted ∷ queued ∷ [])
      ∷ ("bad", discovered ∷ filtered ∷ [])
      ∷ []
unfolding run histories_of
discover_run = refl

-- A redirect of "/b" to "/a/" fetches "/a", which waits, and fails "/b".
abbrev at_b : FrontierRecord → CrawlFrontier
at_b r = (reconcile_final policy (pop (pop two).0).0 1 r "/a/" true true).0

abbrev record_b : FrontierRecord
record_b = record {
  url = "/b";
  depth = 1;
  sources = link ∷ [];
  states = discovered ∷ admitted ∷ queued ∷ [];
  reason = none;
  modified_at = none;
  priority = none;
  order = 1;
}

abbrev record_a : FrontierRecord
record_a = record record_b { url = "/a"; order = 0 }

merge_run :
    histories_of (at_b record_b).records
    ≡ ("/a", discovered ∷ admitted ∷ queued ∷ fetched ∷ [])
      ∷ ("/b", discovered ∷ admitted ∷ queued ∷ failed ∷ [])
      ∷ []
unfolding run histories_of
merge_run = refl

Reach-two : Reach policy two
Reach-two = next (next start (discovering empty "/a" (found 1))) (discovering one "/b" (found 1))

at_a : get_elem? two.records 0 ≡ some record_a
unfolding run
at_a = refl

a-IsAdmitted : IsAdmitted policy record_a
a-IsAdmitted = record { path = inl refl; normal = ("/a", refl); in_scope = refl }

Reach-IsFrontier_example : IsFrontier policy two
Reach-IsFrontier_example = Reach-IsFrontier policy Reach-two

Reach-unique_example : ◌≡◌ {A = ℕ} 0 0
Reach-unique_example =
    Reach-unique policy 0 0 record_a record_a Reach-two at_a at_a a-IsAdmitted a-IsAdmitted refl

discover_keeps_example :
    (s : FrontierRecord) × (get_elem? (discover policy two "/a/" (found 0)).0.records 0 ≡ some s)
    × Same policy two record_a s
discover_keeps_example = discover_keeps policy two "/a/" (found 0) 0 record_a at_a

discover_admits_iff_example :
    ((discover policy two "/c" (found 1)).0.queue ≡ two.queue ++ length two.records ∷ [])
    ↔ Passes policy two "/c" (found 1)
discover_admits_iff_example = discover_admits_iff policy two "/c" (found 1)

abbrev done_a : CrawlFrontier
done_a = mark_fetched two 0

abbrev fetched_a : FrontierRecord
fetched_a = record record_a { states = discovered ∷ admitted ∷ queued ∷ fetched ∷ [] }

done_at_a : get_elem? done_a.records 0 ≡ some fetched_a
unfolding run
done_at_a = refl

Step-final_example : EndedAt (cancel_queued done_a) 0 fetched_a
Step-final_example = Step-final policy 0 fetched_a (Step.cancelling_all done_a) done_at_a refl

b_waits : get_elem? two.queue 1 ≡ some 1
unfolding run
b_waits = refl

cancel_queued-NotWaiting_example :
    ((cancel_queued two).queue ≡ []) × NotWaiting (cancel_queued two).records 1
cancel_queued-NotWaiting_example = cancel_queued-NotWaiting two 1 1 b_waits
