-- ===== src/Robots/Parsing.antt =====
-- orchestrator/robots_policy.py: the groups that `_RobotsParser` reads from lines that were written
-- for groups.
use thorondor.Prelude.{
  ℕ, Bool, true, false, some, List, [], ◌∷◌, ◌++◌, ◌≡◌, refl, sym, ap, ◌∙◌, if◌then◌else◌, map, All,
}
use mathlib.Core.List.{append_assoc, append-nil}
use thorondor.Robots.Rules.{RobotsRule}
use thorondor.Robots.Groups.{
  Field, Directive, Texts, RobotsGroup, RobotsParser, is_empty, current, modify_current,
  begins_group, append_rule, add_agent, add_group_directive, add, add_all,
}

-- The lines of a group: one for each agent, then one for each rule.
abbrev pub agent_line : List ℕ → Directive
agent_line agent = record { field = Field.user_agent; value = agent }

abbrev pub line_of : RobotsRule → Directive
line_of rule = record {
  field = if rule.allow then Field.allow else Field.disallow;
  value = rule.pattern;
}

abbrev pub lines_of : RobotsGroup → List Directive
lines_of g = map agent_line g.agents ++ map line_of g.rules

abbrev pub all_lines : List RobotsGroup → List Directive
all_lines [] = []
all_lines (g ∷ rest) = lines_of g ++ all_lines rest

current-concat : (groups : List RobotsGroup) (g : RobotsGroup) → current (groups ++ g ∷ []) ≡ some g
current-concat [] g = refl
current-concat (h ∷ []) g = refl
current-concat (h ∷ k ∷ rest) g = current-concat (k ∷ rest) g

modify_current-concat :
    (f : RobotsGroup → RobotsGroup) (groups : List RobotsGroup) (g : RobotsGroup)
    → modify_current f (groups ++ g ∷ []) ≡ (groups ++ f g ∷ [])
modify_current-concat f [] g = refl
modify_current-concat f (h ∷ []) g = refl
modify_current-concat f (h ∷ k ∷ rest) g =
    ap (λ later. h ∷ later) (modify_current-concat f (k ∷ rest) g)

module _ (t : Texts) where
  -- A group that can be written: its agents and patterns are not empty, its agents are case-folded,
  -- it has an agent and a rule, and no delay.
  abbrev pub IsWritable : RobotsGroup → Type 0
  IsWritable g =
      (is_empty g.agents ≡ false)
      × (is_empty g.rules ≡ false)
      × (g.crawl_delays ≡ [])
      × All (λ a. (is_empty a ≡ false) × (t.casefold a ≡ a)) g.agents
      × All (λ r. is_empty r.pattern ≡ false) g.rules

  add_all-append :
      (p : RobotsParser) (ds es : List Directive)
      → add_all t p (ds ++ es) ≡ add_all t (add_all t p ds) es
  unfolding add_all
  add_all-append p [] es = refl
  add_all-append p (d ∷ ds) es = add_all-append (add t p d) ds es

  -- The parser with a group at the end.
  abbrev ending : RobotsParser → List RobotsGroup → RobotsGroup → RobotsParser
  ending p groups g = record p { groups = groups ++ g ∷ [] }

  abbrev naming : List (List ℕ) → RobotsGroup
  naming agents = record { agents = agents; rules = []; crawl_delays = [] }

  add-agent :
      (p : RobotsParser) (groups : List RobotsGroup) (agents : List (List ℕ)) (a : List ℕ)
      → is_empty a ≡ false
      → t.casefold a ≡ a
      → add t (ending p groups (naming agents)) (agent_line a)
        ≡ ending p groups (naming (agents ++ a ∷ []))
  unfolding add add_agent
  add-agent p groups agents a some_text folded =
      rw (some_text, current-concat, modify_current-concat, folded) refl

  add-agents :
      (p : RobotsParser) (groups : List RobotsGroup) (agents more : List (List ℕ))
      → All (λ a. (is_empty a ≡ false) × (t.casefold a ≡ a)) more
      → add_all t (ending p groups (naming agents)) (map agent_line more)
        ≡ ending p groups (naming (agents ++ more))
  unfolding add_all
  add-agents p groups agents [] h = rw append-nil refl
  add-agents p groups agents (a ∷ more) ((some_text, folded), h) =
      ap (λ q. add_all t q (map agent_line more)) (add-agent p groups agents a some_text folded)
      ∙ add-agents p groups (agents ++ a ∷ []) more h
      ∙ ap (λ names. ending p groups (naming names)) (append_assoc agents (a ∷ []) more)

  add-rule :
      (p : RobotsParser) (groups : List RobotsGroup) (g : RobotsGroup) (allowed : Bool)
      (pattern : List ℕ)
      → is_empty g.agents ≡ false
      → is_empty pattern ≡ false
      → add t (ending p groups g) (line_of (record { allow = allowed; pattern = pattern }))
        ≡ ending p groups (append_rule (record { allow = allowed; pattern = pattern }) g)
  unfolding add add_group_directive
  add-rule p groups g true pattern named some_text =
      rw (current-concat, named, some_text, modify_current-concat) refl
  add-rule p groups g false pattern named some_text =
      rw (current-concat, named, some_text, modify_current-concat) refl

  add-rules :
      (p : RobotsParser) (groups : List RobotsGroup) (g : RobotsGroup) (more : List RobotsRule)
      → is_empty g.agents ≡ false
      → All (λ r. is_empty r.pattern ≡ false) more
      → add_all t (ending p groups g) (map line_of more)
        ≡ ending p groups (record g { rules = g.rules ++ more })
  unfolding add_all
  add-rules p groups g [] named h = rw append-nil refl
  add-rules p groups g (r ∷ more) named (some_text, h) =
      ap (λ q. add_all t q (map line_of more))
        (add-rule p groups g r.allow r.pattern named some_text)
      ∙ add-rules p groups (append_rule r g) more named h
      ∙ ap (λ rules. ending p groups (record g { rules = rules }))
          (append_assoc g.rules (r ∷ []) more)

  -- The first agent of a group opens it where the last group has rules.
  open-agent :
      (p : RobotsParser) (a : List ℕ)
      → begins_group (current p.groups) ≡ true
      → is_empty a ≡ false
      → t.casefold a ≡ a
      → add t p (agent_line a) ≡ ending p p.groups (naming (a ∷ []))
  unfolding add add_agent
  open-agent p a closed some_text folded =
      rw (some_text, closed, modify_current-concat, folded) refl

  add_lines_of :
      (p : RobotsParser) (agents : List (List ℕ)) (rules : List RobotsRule) (delays : List ℕ)
      → begins_group (current p.groups) ≡ true
      → IsWritable (record { agents = agents; rules = rules; crawl_delays = delays })
      → add_all t p (map agent_line agents ++ map line_of rules)
        ≡ ending p p.groups (record { agents = agents; rules = rules; crawl_delays = delays })
  unfolding add_all
  add_lines_of p [] rules delays closed h = let named : true ≡ false = h.0 in absurd cc
  add_lines_of p (a ∷ more) rules delays closed
        (named, ruled, none_slow, (first, later), patterns) =
      let opened = open-agent p a closed first.0 first.1 in
      let listed = add-agents p p.groups (a ∷ []) more later in
      let filled = add-rules p p.groups (naming (a ∷ more)) rules named patterns in
      ap (λ q. add_all t q (map agent_line more ++ map line_of rules)) opened
      ∙ add_all-append (ending p p.groups (naming (a ∷ []))) (map agent_line more)
          (map line_of rules)
      ∙ ap (λ q. add_all t q (map line_of rules)) listed
      ∙ filled
      ∙ ap (λ d. ending p p.groups (record { agents = a ∷ more; rules = rules; crawl_delays = d }))
          (sym none_slow)

  add-group :
      (p : RobotsParser) (g : RobotsGroup)
      → begins_group (current p.groups) ≡ true
      → IsWritable g
      → add_all t p (lines_of g) ≡ ending p p.groups g
  add-group p g = add_lines_of p g.agents g.rules g.crawl_delays

  -- What the parser reads from the lines written for any groups is those groups, in order, after what
  -- it had; this if each group has an agent and a rule, no delay, case-folded agents and no empty
  -- value, and if the parser is between groups.
  pub add_all-lines :
      (p : RobotsParser) (gs : List RobotsGroup)
      → begins_group (current p.groups) ≡ true
      → All IsWritable gs
      → add_all t p (all_lines gs) ≡ record p { groups = p.groups ++ gs }
  unfolding add_all
  add_all-lines p [] closed h = rw append-nil refl
  add_all-lines p (g ∷ gs) closed (writable, h) =
      let closes : begins_group (current (p.groups ++ g ∷ [])) ≡ true =
        rw (current-concat, writable.1) refl in
      add_all-append p (lines_of g) (all_lines gs)
      ∙ ap (λ q. add_all t q (all_lines gs)) (add-group p g closed writable)
      ∙ add_all-lines (ending p p.groups g) gs closes h
      ∙ ap (λ groups. record p { groups = groups }) (append_assoc p.groups (g ∷ []) gs)
