-- ===== src/TargetWatch/Verdicts.antt =====
-- orchestrator/target_watch.py: `evaluate_watch`. Of a watch the model leaves out the locator of its target;
-- `exact` holds if its `match` is that and not "contains".
use thorondor.Prelude.{
  Bool, true, false, Option, none, some, [], ◌∷◌, ◌&&◌, ◌||◌, not, if◌then◌else◌, String, str_eq,
  Dict, lookup,
}
use thorondor.PageCache.{StoredTargetSnapshot}
use thorondor.TargetWatch.{Words}

pub record TargetState : Type 0 where
  pub text : Option String
  pub attribute : Option String
  pub value : Option String

pub record TargetWatch : Type 0 where
  pub desired : TargetState
  pub expected : Option TargetState
  pub exact : Bool

pub record TargetWatchSnapshot : Type 0 where
  pub text : String
  pub attributes : Dict String

pub data WatchState : Type 0 where
  new : WatchState
  same : WatchState
  changed : WatchState
  removed : WatchState

pub record TargetWatchResult : Type 0 where
  pub resolution : String
  pub state : Option WatchState
  pub previous : Option TargetWatchSnapshot
  pub current : Option TargetWatchSnapshot
  pub condition_met : Bool

abbrev pub or_empty : Option String → String
or_empty none = ""
or_empty (some s) = s

abbrev pub is_found : Option StoredTargetSnapshot → Bool
is_found none = false
is_found (some s) = str_eq s.resolution "found"

-- `_public`
abbrev pub public : Option StoredTargetSnapshot → Option TargetWatchSnapshot
public none = none
public (some s) =
    if str_eq s.resolution "found"
    then some (record { text = or_empty s.text; attributes = s.attributes })
    else none

abbrev pub same_text : Option String → Option String → Bool
same_text none none = true
same_text none (some b) = false
same_text (some a) none = false
same_text (some a) (some b) = str_eq a b

-- On the keys of the third dictionary the first two have the same values.
abbrev pub agree : Dict String → Dict String → Dict String → Bool
agree a b [] = true
agree a b ((key, value) ∷ rest) = same_text (lookup key a) (lookup key b) && agree a b rest

-- Python's equality of dictionaries, whatever their order.
abbrev pub same_attributes : Dict String → Dict String → Bool
same_attributes a b = agree a b a && agree a b b

abbrev pub is_same : StoredTargetSnapshot → StoredTargetSnapshot → Bool
is_same a b = same_text a.text b.text && same_attributes a.attributes b.attributes

module _ (w : Words) where
  abbrev actual_of : StoredTargetSnapshot → TargetState → Option String → String
  actual_of s state (some t) = or_empty s.text
  actual_of s state none = or_empty (lookup (w.casefold (or_empty state.attribute)) s.attributes)

  abbrev expected_of : TargetState → Option String → String
  expected_of state (some t) = t
  expected_of state none = or_empty state.value

  abbrev pub folded : String → String
  folded t = w.casefold (w.normalize_text t)

  -- `_state_matches`
  unfoldable pub state_matches : Option StoredTargetSnapshot → TargetState → Bool → Bool
  unfolding lookup
  state_matches none state exact = false
  state_matches (some s) state exact =
      let actual = folded (actual_of s state state.text) in
      let expected = folded (expected_of state state.text) in
      if str_eq s.resolution "found"
      then if exact then str_eq actual expected else w.contains expected actual
      else false

  abbrev pub state_of : Option StoredTargetSnapshot → StoredTargetSnapshot → WatchState
  state_of none current = new
  state_of (some p) current =
      if str_eq p.resolution "found" then if is_same p current then same else changed else new

  abbrev pub is_changed : WatchState → Bool
  is_changed changed = true
  is_changed state = false

  abbrev pub previous_matches :
      Option TargetState → TargetWatch → Option StoredTargetSnapshot → Bool
  previous_matches (some expected) watch previous = state_matches previous expected watch.exact
  previous_matches none watch previous =
      is_found previous && not (state_matches previous watch.desired watch.exact)

  unfoldable pub evaluate_watch :
      TargetWatch → Option StoredTargetSnapshot → StoredTargetSnapshot → TargetWatchResult
  unfolding state_matches
  evaluate_watch watch previous current =
      let state = state_of previous current in
      if str_eq current.resolution "ambiguous" || str_eq current.resolution "unsupported"
      then record {
        resolution = current.resolution;
        state = none;
        previous = public previous;
        current = none;
        condition_met = false;
      }
      else if str_eq current.resolution "missing"
      then record {
        resolution = "missing";
        state = if is_found previous then some removed else none;
        previous = public previous;
        current = none;
        condition_met = false;
      }
      else record {
        resolution = "found";
        state = some state;
        previous = public previous;
        current = public (some current);
        condition_met =
            is_changed state
            && previous_matches watch.expected watch previous
            && state_matches (some current) watch.desired watch.exact;
      }
