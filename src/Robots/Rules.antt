-- ===== src/Robots/Rules.antt =====
-- orchestrator/robots_policy.py: `RobotsRule` and `RobotsSnapshot.allows`. `urlsplit` is a parameter:
-- it gives the path and the query of a URL. `none` is an uncaught error: `chr` of a number below zero
-- in `_normalize_octets`.
use thorondor.Prelude.{
  ℕ, String, ◌+◌, Bool, true, false, Option, some, List, [], ◌∷◌, ◌++◌, ◌==◌, ◌&&◌, ltb,
  if◌then◌else◌, length, any, max, ◌>>=◌,
}
use thorondor.Robots.Octets.{Unicode, utf8, normalize_octets}
use thorondor.Robots.Glob.{star, glob}

pub record RobotsRule : Type 0 where
  pub allow : Bool
  pub pattern : List ℕ

abbrev pub dollar : ℕ
dollar = b'$'

abbrev pub ends_with : ℕ → List ℕ → Bool
ends_with c [] = false
ends_with c (d ∷ []) = d == c
ends_with c (d ∷ e ∷ rest) = ends_with c (e ∷ rest)

abbrev pub drop_last : List ℕ → List ℕ
drop_last [] = []
drop_last (d ∷ []) = []
drop_last (d ∷ e ∷ rest) = d ∷ drop_last (e ∷ rest)

-- `value.replace("*", "")`
abbrev pub without_stars : List ℕ → List ℕ
without_stars [] = []
without_stars (c ∷ rest) = let more = without_stars rest in if c == star then more else c ∷ more

-- `len(value.encode("utf-8"))`
abbrev pub utf8_length : List ℕ → ℕ
utf8_length [] = 0
utf8_length (c ∷ rest) = (if ltb c 128 then 1 else length (utf8 c)) + utf8_length rest

-- A pattern that ends in `$`, without it.
abbrev pub stem : List ℕ → List ℕ
stem pattern = if ends_with dollar pattern then drop_last pattern else pattern

unfoldable pub specificity_of : List ℕ → ℕ
specificity_of normal = utf8_length (without_stars (stem normal))

unfoldable pub matches_normal : List ℕ → List ℕ → Option Bool
matches_normal normal target = glob (ends_with dollar normal) (stem normal) target

pub data SnapshotState : Type 0 where
  available unavailable unreachable : SnapshotState

-- A delay and a time are whole seconds here.
pub record RobotsSnapshot : Type 0 where
  pub origin : String
  pub user_agent : List ℕ
  pub state : SnapshotState
  pub rules : List RobotsRule
  pub sitemaps : List (List ℕ)
  pub crawl_delay_s : Option ℕ
  pub fetched_at : ℕ
  pub reason : Option String

-- What `urlsplit` finds in a URL.
pub record SplitUrl : Type 0 where
  pub path : List ℕ
  pub query : List ℕ

abbrev path_or_root : List ℕ → List ℕ
path_or_root [] = b'/' ∷ []
path_or_root (c ∷ path) = c ∷ path

abbrev question : List ℕ → List ℕ
question [] = []
question (c ∷ query) = b'?' ∷ c ∷ query

abbrev pub path_query : SplitUrl → List ℕ
path_query url = path_or_root url.path ++ question url.query

-- A rule that matches, by what the choice looks at.
pub record Weighed : Type 0 where
  pub allow : Bool
  pub weight : ℕ

-- `max(rule.specificity for rule in matches)` of rules of which there is one.
abbrev pub longest : List Weighed → ℕ
longest [] = 0
longest (w ∷ rest) = max w.weight (longest rest)

unfoldable pub verdict : List Weighed → Bool
verdict [] = true
verdict (w ∷ rest) =
    let most = longest (w ∷ rest) in any (λ v. v.allow && (v.weight == most)) (w ∷ rest)

module _ (u : Unicode) where
  -- The two methods of a rule.
  unfoldable pub specificity : RobotsRule → Option ℕ
  unfolding specificity_of
  specificity rule = normalize_octets u rule.pattern >>= λ normal. some (specificity_of normal)

  unfoldable pub matches : RobotsRule → List ℕ → Option Bool
  unfolding matches_normal
  matches rule target = normalize_octets u rule.pattern >>= λ normal. matches_normal normal target

  -- The rules that match, with their specificities.
  unfoldable pub matching : List RobotsRule → List ℕ → Option (List Weighed)
  unfolding specificity matches
  matching [] target = some []
  matching (rule ∷ rest) target =
      let later = matching rest target in
      matches rule target >>= λ matched. specificity rule >>= λ weight. later >>= λ others.
      some (if matched then record { allow = rule.allow; weight = weight } ∷ others else others)

  unfoldable pub allows : RobotsSnapshot → SplitUrl → Option Bool
  unfolding matching verdict
  allows snapshot url = elim snapshot.state [
    | unavailable ↦ some true
    | unreachable ↦ some false
    | available ↦ normalize_octets u (path_query url) >>= λ target.
        matching snapshot.rules target >>= λ matched. some (verdict matched)
  ]
