-- ===== src/Robots/Groups.antt =====
-- orchestrator/robots_policy.py: `_RobotsParser` and `RobotsCache`, behind `_directive`: a line is the
-- field that it names and its value, a list of code points. `_current` is always the last group, since
-- it is only set where it is appended. `str.casefold`, `urljoin` with the origin, and `float` are
-- parameters.
use thorondor.Prelude.{
  ℕ, Bool, true, false, Option, none, some, List, [], ◌∷◌, ◌++◌, ◌==◌, ◌&&◌, ◌||◌, not, leb,
  if◌then◌else◌, any, filter_by,
}
use thorondor.Robots.Rules.{RobotsRule}

-- The field of a directive, once stripped and case-folded.
pub data Field : Type 0 where
  sitemap user_agent allow disallow crawl_delay other_field : Field

pub record Directive : Type 0 where
  pub field : Field
  pub value : List ℕ

-- The results of `float`: an error, a number of seconds, or a number that is below 0 or none at all.
pub data Delay : Type 0 where
  no_float out_of_range : Delay
  seconds : ℕ → Delay

pub record Texts : Type 0 where
  pub casefold : List ℕ → List ℕ
  pub join_origin : List ℕ → List ℕ
  pub to_float : List ℕ → Delay

-- `_RobotsGroup`
pub record RobotsGroup : Type 0 where
  pub agents : List (List ℕ)
  pub rules : List RobotsRule
  pub crawl_delays : List ℕ

pub record RobotsParser : Type 0 where
  pub groups : List RobotsGroup
  pub sitemaps : List (List ℕ)

abbrev pub same : List ℕ → List ℕ → Bool
same [] [] = true
same [] (d ∷ e) = false
same (c ∷ b) [] = false
same (c ∷ b) (d ∷ e) = let rest = same b e in c == d && rest

abbrev pub is_empty {ℓ} : {A : Type ℓ} → List A → Bool
is_empty [] = true
is_empty (a ∷ rest) = false

abbrev pub current : List RobotsGroup → Option RobotsGroup
current [] = none
current (g ∷ []) = some g
current (g ∷ h ∷ rest) = current (h ∷ rest)

-- A change of the current group.
abbrev pub modify_current : (RobotsGroup → RobotsGroup) → List RobotsGroup → List RobotsGroup
modify_current f [] = []
modify_current f (g ∷ []) = f g ∷ []
modify_current f (g ∷ h ∷ rest) = g ∷ modify_current f (h ∷ rest)

-- Whether a `User-agent` line begins a group.
abbrev pub begins_group : Option RobotsGroup → Bool
begins_group none = true
begins_group (some g) = not (is_empty g.rules) || not (is_empty g.crawl_delays)

abbrev pub append_agent : List ℕ → RobotsGroup → RobotsGroup
append_agent agent g = record g { agents = g.agents ++ agent ∷ [] }

abbrev pub append_rule : RobotsRule → RobotsGroup → RobotsGroup
append_rule rule g = record g { rules = g.rules ++ rule ∷ [] }

abbrev pub append_delay : Delay → RobotsGroup → RobotsGroup
append_delay no_float g = g
append_delay out_of_range g = g
append_delay (seconds s) g =
    if leb s 86400 then record g { crawl_delays = g.crawl_delays ++ s ∷ [] } else g

abbrev pub has_agents : Option RobotsGroup → Bool
has_agents none = false
has_agents (some g) = not (is_empty g.agents)

module _ (t : Texts) where
  unfoldable pub add_agent : List RobotsGroup → List ℕ → List RobotsGroup
  add_agent groups value =
      let opened =
        if begins_group (current groups)
        then groups ++ record { agents = []; rules = []; crawl_delays = [] } ∷ []
        else groups in
      modify_current (append_agent (t.casefold value)) opened

  abbrev pub rule_line : Bool → List ℕ → List RobotsGroup → List RobotsGroup
  rule_line allowed value groups =
      if is_empty value
      then groups
      else modify_current (append_rule (record { allow = allowed; pattern = value })) groups

  abbrev pub group_line : Directive → List RobotsGroup → List RobotsGroup
  group_line d groups = elim d.field [
    | allow ↦ rule_line true d.value groups
    | disallow ↦ rule_line false d.value groups
    | crawl_delay ↦ modify_current (append_delay (t.to_float d.value)) groups
    | _ ↦ groups
  ]

  unfoldable pub add_group_directive : List RobotsGroup → Directive → List RobotsGroup
  add_group_directive groups d = if has_agents (current groups) then group_line d groups else groups

  abbrev pub add_sitemap : List (List ℕ) → List ℕ → List (List ℕ)
  add_sitemap sitemaps value =
      let url = t.join_origin value in
      if any (same url) sitemaps then sitemaps else sitemaps ++ url ∷ []

  -- `_add`
  unfoldable pub add : RobotsParser → Directive → RobotsParser
  unfolding add_agent add_group_directive
  add p d =
      let grouped = record p { groups = add_group_directive p.groups d } in
      elim d.field [
        | sitemap ↦
            if is_empty d.value
            then grouped
            else record p { sitemaps = add_sitemap p.sitemaps d.value }
        | user_agent ↦
            if is_empty d.value then grouped else record p { groups = add_agent p.groups d.value }
        | _ ↦ grouped
      ]

  unfoldable pub add_all : RobotsParser → List Directive → RobotsParser
  add_all p [] = p
  add_all p (d ∷ rest) = add_all (add p d) rest

  unfoldable pub selected_groups : List ℕ → List RobotsGroup → List RobotsGroup
  selected_groups agent groups =
      let token = t.casefold agent in
      let named =
        filter_by (λ g. any (λ a. not (same a (b'*' ∷ [])) && same a token) g.agents) groups in
      if is_empty named then filter_by (λ g. any (same (b'*' ∷ [])) g.agents) groups else named
