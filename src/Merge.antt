-- ===== src/Merge.antt =====
-- orchestrator/merge.py: `merge_dedup`. Scores are of a type with an order, `normalize_url`, the order of
-- texts and the name of a set without a subquery are parameters.
pub mod Bests
pub mod Highest
pub mod Kinds
pub mod Offers
pub mod Falling
pub mod Merged
mod Tests
use thorondor.Prelude.{
  ℕ, zero, suc, ◌+◌, ◌^◌, Bool, true, false, Option, none, some, List, [], ◌∷◌, ◌++◌, map, ◌==◌,
  ◌&&◌, ◌||◌, not, ltb, if◌then◌else◌, get_elem?, sort, String, str_eq, Dict, lookup, insert,
}

pub record DiscoveryContribution (S : Type 0) : Type 0 where
  pub subquery : String
  pub engine : String
  pub position : Option ℕ
  pub score : S

pub record DiscoveryResult (S : Type 0) : Type 0 where
  pub title : String
  pub url : String
  pub snippet : String
  pub engine : String
  pub score : S
  pub published_at : Option String
  pub contributions : List (DiscoveryContribution S)

pub record Names (S : Type 0) : Type 0 where
  pub normalize_url : String → String
  pub text_lt : String → String → Bool
  pub result_set : ℕ → String
  pub lt : S → S → Bool

-- The two dictionaries of `merge_dedup`; the contributions to a URL are the values of the inner one.
pub record Merging (S : Type 0) : Type 0 where
  pub best : Dict (DiscoveryResult S)
  pub contributions : Dict (List (DiscoveryContribution S))

abbrev pub same_position : Option ℕ → Option ℕ → Bool
same_position none none = true
same_position none (some b) = false
same_position (some a) none = false
same_position (some a) (some b) = a == b

abbrev pub or_nothing : {A : Type 0} → Option (List A) → List A
or_nothing none = []
or_nothing (some xs) = xs

module _ {S : Type 0} (n : Names S) where
  abbrev pub same_contribution : DiscoveryContribution S → DiscoveryContribution S → Bool
  same_contribution a b =
      str_eq a.subquery b.subquery
      && str_eq a.engine b.engine
      && same_position a.position b.position

  -- `_contributions`
  abbrev pub contributions_of :
      DiscoveryResult S → String → List (DiscoveryContribution S) → List (DiscoveryContribution S)
  contributions_of r subquery [] =
      record { subquery = subquery; engine = r.engine; position = none; score = r.score } ∷ []
  contributions_of r subquery (c ∷ rest) = c ∷ rest

  unfoldable pub add_contribution :
      List (DiscoveryContribution S) → DiscoveryContribution S → List (DiscoveryContribution S)
  add_contribution [] c = c ∷ []
  add_contribution (d ∷ rest) c =
      let others = add_contribution rest c in
      if same_contribution d c then (if n.lt d.score c.score then c else d) ∷ rest else d ∷ others

  abbrev pub add_contributions :
      List (DiscoveryContribution S)
      → List (DiscoveryContribution S)
      → List (DiscoveryContribution S)
  add_contributions known [] = known
  add_contributions known (c ∷ rest) = add_contributions (add_contribution known c) rest

  abbrev pub better : Option (DiscoveryResult S) → DiscoveryResult S → DiscoveryResult S
  better none r = r
  better (some existing) r = if n.lt existing.score r.score then r else existing

  -- `_merge_result`; to put the existing result again changes nothing.
  unfoldable pub merge_result : DiscoveryResult S → String → Merging S → Merging S
  unfolding lookup insert add_contribution
  merge_result r subquery m =
      let key = n.normalize_url r.url in
      record {
        best = insert key (better (lookup key m.best) r) m.best;
        contributions =
            insert key
              (add_contributions (or_nothing (lookup key m.contributions))
                (contributions_of r subquery r.contributions))
              m.contributions;
      }

  abbrev pub subquery_or : ℕ → Option String → String
  subquery_or i none = n.result_set i
  subquery_or i (some subquery) = subquery

  -- The results with their subqueries, in the order of the two loops.
  abbrev pub with_subquery : String → List (DiscoveryResult S) → List (DiscoveryResult S × String)
  with_subquery subquery [] = []
  with_subquery subquery (r ∷ rest) = (r, subquery) ∷ with_subquery subquery rest

  abbrev pub all_results :
      ℕ → List (List (DiscoveryResult S)) → List String → List (DiscoveryResult S × String)
  all_results i [] subqueries = []
  all_results i (results ∷ rest) subqueries =
      with_subquery (subquery_or i (get_elem? subqueries i)) results
      ++ all_results (i + 1) rest subqueries

  unfoldable pub merge_all : List (DiscoveryResult S × String) → Merging S → Merging S
  unfolding merge_result
  merge_all [] m = m
  merge_all ((r, subquery) ∷ rest) m = merge_all rest (merge_result r subquery m)

  abbrev position_or_last : Option ℕ → ℕ
  position_or_last none = 2 ^ 31
  position_or_last (some i) = i

  -- The order of (subquery, position, engine)
  abbrev pub contribution_before : DiscoveryContribution S → DiscoveryContribution S → Bool
  contribution_before a b =
      let i = position_or_last a.position in
      let j = position_or_last b.position in
      n.text_lt a.subquery b.subquery
      || str_eq a.subquery b.subquery && (ltb i j || (i == j) && n.text_lt a.engine b.engine)

  -- `_merged_result`
  unfoldable pub merged_result :
      Dict (List (DiscoveryContribution S)) → DiscoveryResult S → DiscoveryResult S
  unfolding lookup
  merged_result contributions r = record r {
    contributions =
        sort contribution_before (or_nothing (lookup (n.normalize_url r.url) contributions));
  }

  -- The order of (-score, normalised URL)
  abbrev pub result_before : DiscoveryResult S → DiscoveryResult S → Bool
  result_before a b =
      n.lt b.score a.score
      || not (n.lt a.score b.score) && n.text_lt (n.normalize_url a.url) (n.normalize_url b.url)

  abbrev pub values : Dict (DiscoveryResult S) → List (DiscoveryResult S)
  values [] = []
  values ((key, r) ∷ rest) = r ∷ values rest

  -- Without subqueries their list is empty.
  unfoldable pub merge_dedup :
      List (List (DiscoveryResult S)) → List String → List (DiscoveryResult S)
  unfolding merge_all merged_result
  merge_dedup result_sets subqueries =
      let m =
        merge_all (all_results 0 result_sets subqueries)
          (record { best = []; contributions = [] }) in
      sort result_before (map (merged_result m.contributions) (values m.best))
