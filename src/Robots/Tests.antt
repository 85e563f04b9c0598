-- ===== src/Robots/Tests.antt =====
-- orchestrator/robots_policy.py: runs of the model on small robots.txt rules.
use thorondor.Prelude.{ℕ, true, false, none, some, List, [], ◌∷◌, ◌≡◌, refl, ◌↔◌, get_elem?}
use thorondor.Robots.Octets.{Unicode, normalize_octets}
use thorondor.Robots.Glob.{glob, denotes, is_star_free}
use thorondor.Robots.Matching.{glob-denotes}
use thorondor.Robots.Rules.{RobotsRule, RobotsSnapshot, SnapshotState, Weighed, verdict, allows}
use thorondor.Robots.Groups.{Texts, Delay, RobotsGroup, RobotsParser, add_all, selected_groups}
use thorondor.Robots.Parsing.{all_lines, add_all-lines}
use thorondor.Robots.Snapshots.{
  HttpAnswer, from_http, get_cached, put_cached, get_cached-put_cached,
}
use thorondor.Robots.Answers.{Ruled, allows-from_http}
use thorondor.Robots.Verdict.{Outweighed, verdict_iff}

-- Every character beyond ASCII is taken for one that is no digit and no space.
abbrev unicode : Unicode
unicode = record { decimal = λ c. none; is_space = λ c. false }

abbrev a_to_z : List ℕ
a_to_z = b'/' ∷ b'a' ∷ b'*' ∷ b'z' ∷ []

abbrev abcz : List ℕ
abcz = b'/' ∷ b'a' ∷ b'b' ∷ b'c' ∷ b'z' ∷ []

abbrev abc : List ℕ
abc = b'/' ∷ b'a' ∷ b'b' ∷ b'c' ∷ []

glob-denotes_example : glob true a_to_z abcz ≡ some (denotes true a_to_z abcz)
unfolding is_star_free
glob-denotes_example = glob-denotes true a_to_z abcz refl

glob_hit : glob true a_to_z abcz ≡ some true
unfolding glob
glob_hit = refl

glob_miss : glob true a_to_z abc ≡ some false
unfolding glob
glob_miss = refl

-- "%7e" is "~", and a letter beyond ASCII is two octets in UTF-8.
octets_run :
    normalize_octets unicode (b'%' ∷ b'7' ∷ b'e' ∷ 0xE9 ∷ [])
    ≡ some (b'~' ∷ b'%' ∷ b'C' ∷ b'3' ∷ b'%' ∷ b'A' ∷ b'9' ∷ [])
unfolding normalize_octets
octets_run = refl

-- A target that has a star itself is compared with the star of the pattern first: "*b" is not found in
-- "*ab".
star_in_target : glob false (b'*' ∷ b'b' ∷ []) (b'*' ∷ b'a' ∷ b'b' ∷ []) ≡ some false
unfolding glob
star_in_target = refl

-- `chr(int("-1", 16))` raises.
negative_octet : normalize_octets unicode (b'%' ∷ b'-' ∷ b'1' ∷ []) ≡ none
unfolding normalize_octets
negative_octet = refl

-- `int` takes no separator for white space, and a lone surrogate has no UTF-8.
separator_octet : normalize_octets unicode (b'%' ∷ 31 ∷ b'5' ∷ []) ≡ some (b'%' ∷ 31 ∷ b'5' ∷ [])
unfolding normalize_octets
separator_octet = refl

surrogate : normalize_octets unicode (b'a' ∷ 0xD800 ∷ []) ≡ none
unfolding normalize_octets
surrogate = refl

abbrev rules : List RobotsRule
rules =
    record { allow = false; pattern = b'/' ∷ b'a' ∷ [] }
    ∷ record { allow = true; pattern = b'/' ∷ b'a' ∷ b'b' ∷ [] }
    ∷ []

abbrev snapshot : RobotsSnapshot
snapshot = record {
  origin = "o";
  user_agent = b'a' ∷ [];
  state = SnapshotState.available;
  rules = rules;
  sitemaps = [];
  crawl_delay_s = none;
  fetched_at = 10;
  reason = none;
}

allows_run : allows unicode snapshot (record { path = abc; query = [] }) ≡ some true
unfolding allows normalize_octets glob
allows_run = refl

disallows_run :
    allows unicode snapshot (record { path = b'/' ∷ b'a' ∷ []; query = [] }) ≡ some false
unfolding allows normalize_octets glob
disallows_run = refl

abbrev weighed : List Weighed
weighed = record { allow = false; weight = 2 } ∷ record { allow = true; weight = 3 } ∷ []

verdict_iff_example :
    (verdict weighed ≡ true)
    ↔ ((i : ℕ) (d : Weighed) → get_elem? weighed i ≡ some d → Outweighed weighed d)
verdict_iff_example = verdict_iff weighed

-- ASCII texts that are already folded, with no URL and no delay.
abbrev texts : Texts
texts = record {
  casefold = λ value. value;
  join_origin = λ value. value;
  to_float = λ value. Delay.no_float;
}

abbrev no_lines : RobotsParser
no_lines = record { groups = []; sitemaps = [] }

abbrev two_groups : List RobotsGroup
two_groups =
    record { agents = (b'a' ∷ []) ∷ (b'b' ∷ []) ∷ []; rules = rules; crawl_delays = [] }
    ∷ record { agents = (b'*' ∷ []) ∷ []; rules = rules; crawl_delays = [] }
    ∷ []

add_all-lines_example :
    add_all texts no_lines (all_lines two_groups) ≡ record { groups = two_groups; sitemaps = [] }
add_all-lines_example = add_all-lines texts no_lines two_groups refl (
  (refl, refl, refl, ((refl, refl), ((refl, refl), tt)), (refl, (refl, tt))),
  ((refl, refl, refl, ((refl, refl), tt), (refl, (refl, tt))), tt),
)

selected_run :
    selected_groups texts (b'c' ∷ []) two_groups
    ≡ record { agents = (b'*' ∷ []) ∷ []; rules = rules; crawl_delays = [] } ∷ []
unfolding selected_groups
selected_run = refl

get_cached-put_cached_example : (get_cached 3600 "o" 20 (put_cached snapshot [])).0 ≡ some snapshot
get_cached-put_cached_example = get_cached-put_cached 3600 snapshot 20 "o" []

abbrev server_error : HttpAnswer
server_error = record { status_code = some 503; body_bytes = 0; directives = [] }

allows-from_http_example :
    Ruled unicode texts "o"
      (b'a' ∷ [])
      server_error
      20
      100
      (some snapshot)
      (record { path = abc; query = [] })
      (allows unicode
        (from_http texts "o" (b'a' ∷ []) server_error 20 100 (some snapshot))
        (record { path = abc; query = [] }))
allows-from_http_example =
    allows-from_http unicode texts "o" (b'a' ∷ []) server_error 20 100 (some snapshot)
      (record { path = abc; query = [] })
