-- ===== src/TargetWatch/Tests.antt =====
-- orchestrator/target_watch.py: a price that changes, and a small tree.
use thorondor.Prelude.{true, false, none, some, List, [], ◌∷◌, ◌≡◌, ◌↔◌, refl, String, str_eq}
use thorondor.PageCache.{StoredTargetSnapshot}
use thorondor.TargetWatch.{
  Words, text, child, TreeParser, Event, starttag, data_part, start_parser, feed,
}
use thorondor.TargetWatch.Nodes.{IsTree}
use thorondor.TargetWatch.Trees.{feed-IsTree}
use thorondor.TargetWatch.Verdicts.{TargetState, TargetWatch, evaluate_watch}
use thorondor.TargetWatch.Conditions.{IsMet, evaluate_watch_iff}

abbrev words : Words
words = record { normalize_text = λ t. t; casefold = λ t. t; contains = str_eq }

abbrev priced : String → StoredTargetSnapshot
priced price = record {
  resolution = "found";
  text = some price;
  attributes = [];
  updated_at = 0;
  baseline_text = none;
  baseline_attributes = none;
  baseline_updated_at = none;
}

abbrev wanted : String → TargetState
wanted price = record { text = some price; attribute = none; value = none }

abbrev watch : TargetWatch
watch = record { desired = wanted "8"; expected = none; exact = true }

met_run : (evaluate_watch words watch (some (priced "9")) (priced "8")).condition_met ≡ true
unfolding evaluate_watch
met_run = refl

same_run : (evaluate_watch words watch (some (priced "8")) (priced "8")).condition_met ≡ false
unfolding evaluate_watch
same_run = refl

evaluate_watch_iff_example :
    ((evaluate_watch words watch (some (priced "9")) (priced "8")).condition_met ≡ true)
    ↔ IsMet words watch (some (priced "9")) (priced "8")
evaluate_watch_iff_example = evaluate_watch_iff words watch (some (priced "9")) (priced "8")

-- <p>text<br>
abbrev events : List Event
events = starttag "p" [] ∷ data_part "text" ∷ starttag "br" [] ∷ []

abbrev parsed : TreeParser
parsed = record {
  nodes =
      record {
        tag = "document";
        attrs = [];
        parent = none;
        children = 1 ∷ [];
        content = child 1 ∷ [];
      }
      ∷ record {
        tag = "p";
        attrs = [];
        parent = some 0;
        children = 2 ∷ [];
        content = text "text" ∷ child 2 ∷ [];
      }
      ∷ record { tag = "br"; attrs = []; parent = some 1; children = []; content = [] }
      ∷ [];
  stack = 1 ∷ 0 ∷ [];
  truncated = false;
}

feed_run : feed words 10 10 events start_parser ≡ some parsed
unfolding feed
feed_run = refl

feed-IsTree_example : IsTree words 10 10 parsed
feed-IsTree_example = feed-IsTree words 10 10 events parsed feed_run
