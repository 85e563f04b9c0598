-- ===== src/Merge/Tests.antt =====
-- orchestrator/merge.py: one URL in two sets, with numbers as scores.
use thorondor.Prelude.{ℕ, false, none, List, [], ◌∷◌, map, ◌≡◌, refl, ltb, String}
use thorondor.Merge.{DiscoveryResult, Names, merge_dedup}

abbrev names : Names ℕ
names = record {
  normalize_url = λ url. url;
  text_lt = λ a b. false;
  result_set = λ i. "set";
  lt = ltb;
}

abbrev result : String → String → ℕ → DiscoveryResult ℕ
result url engine score = record {
  title = "title";
  url = url;
  snippet = "";
  engine = engine;
  score = score;
  published_at = none;
  contributions = [];
}

abbrev sets : List (List (DiscoveryResult ℕ))
sets = (result "a" "e1" 1 ∷ result "b" "e1" 2 ∷ []) ∷ (result "a" "e2" 3 ∷ []) ∷ []

merge_run :
    map {B = String × String} (λ r. (r.url, r.engine)) (merge_dedup names sets [])
    ≡ ("a", "e2") ∷ ("b", "e1") ∷ []
unfolding merge_dedup
merge_run = refl
