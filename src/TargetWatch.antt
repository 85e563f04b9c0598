-- ===== src/TargetWatch.antt =====
-- orchestrator/target_watch.py: the tree of a page, which is built by the calls of html.parser, and
-- `evaluate_watch`. What the library does with texts is a parameter. The nodes stand in one list, the
-- root first, and refer to each other by their position.
pub mod Stacks
pub mod Nodes
pub mod Trees
pub mod Verdicts
pub mod Changes
pub mod Conditions
mod Tests
use thorondor.Prelude.{
  ℕ, zero, suc, ◌+◌, ◌-◌, Bool, true, false, Option, none, some, List, [], ◌∷◌, ◌++◌, ◌==◌, ◌&&◌,
  ◌||◌, not, leb, ltb, if◌then◌else◌, is_some, length, get_elem?, modify, any, String, str_eq, Dict,
  lookup, insert,
}
use thorondor.PageCache.{StoredTargetSnapshot}

-- `normalize_text`, and of the library `casefold` and `in`
pub record Words : Type 0 where
  pub normalize_text : String → String
  pub casefold : String → String
  pub contains : String → String → Bool

pub data Part : Type 0 where
  text : String → Part
  child : ℕ → Part

pub record Node : Type 0 where
  pub tag : String
  pub attrs : Dict String
  pub parent : Option ℕ
  pub children : List ℕ
  pub content : List Part

-- The innermost node is the first of the stack.
pub record TreeParser : Type 0 where
  pub nodes : List Node
  pub stack : List ℕ
  pub truncated : Bool

-- The calls of html.parser
pub data Event : Type 0 where
  starttag : String → List (String × Option String) → Event
  startendtag : String → List (String × Option String) → Event
  endtag : String → Event
  data_part : String → Event

abbrev pub start_parser : TreeParser
start_parser = record {
  nodes = record { tag = "document"; attrs = []; parent = none; children = []; content = [] } ∷ [];
  stack = 0 ∷ [];
  truncated = false;
}

abbrev pub void_tags : List String
void_tags =
    "area" ∷ "base" ∷ "br" ∷ "col" ∷ "embed" ∷ "hr" ∷ "img" ∷ "input" ∷ "link" ∷ "meta" ∷ "param"
    ∷ "source" ∷ "track" ∷ "wbr" ∷ []

abbrev pub is_void : String → Bool
is_void tag = any (λ v. str_eq v tag) void_tags

abbrev value_or_empty : Option String → String
value_or_empty none = ""
value_or_empty (some v) = v

abbrev pub add_child : ℕ → Node → Node
add_child i n = record n { children = n.children ++ i ∷ []; content = n.content ++ child i ∷ [] }

abbrev pub add_text : String → Node → Node
add_text value n = record n { content = n.content ++ text value ∷ [] }

abbrev pub has_tag : String → Option Node → Bool
has_tag tag none = false
has_tag tag (some n) = str_eq n.tag tag

-- The stack below the innermost node with a tag; the last of the stack is not looked at.
unfoldable pub close_tag : List Node → String → List ℕ → Option (List ℕ)
close_tag nodes tag [] = none
close_tag nodes tag (i ∷ []) = none
close_tag nodes tag (i ∷ j ∷ rest) =
    let outer = close_tag nodes tag (j ∷ rest) in
    if has_tag tag (get_elem? nodes i) then some (j ∷ rest) else outer

abbrev pub or_stack : List ℕ → Option (List ℕ) → List ℕ
or_stack stack none = stack
or_stack stack (some rest) = rest

module _ (w : Words) (max_nodes max_depth : ℕ) where
  abbrev pub normalized_attrs : List (String × Option String) → Dict String → Dict String
  normalized_attrs [] done = done
  normalized_attrs ((name, value) ∷ rest) done = normalized_attrs rest (
      if str_eq name ""
      then done
      else insert (w.casefold name) (w.normalize_text (value_or_empty value)) done)

  abbrev pub new_node : String → List (String × Option String) → ℕ → Node
  new_node tag attrs parent = record {
    tag = w.casefold tag;
    attrs = normalized_attrs attrs [];
    parent = some parent;
    children = [];
    content = [];
  }

  abbrev pub add_node :
      String → List (String × Option String) → TreeParser → List ℕ → Option TreeParser
  add_node tag attrs p [] = none
  add_node tag attrs p (top ∷ rest) =
      let i = length p.nodes in
      some (record {
        nodes = modify (add_child i) p.nodes top ++ new_node tag attrs top ∷ [];
        stack = if is_void (w.casefold tag) then top ∷ rest else i ∷ top ∷ rest;
        truncated = p.truncated;
      })

  -- An exception is `none`.
  unfoldable pub handle_starttag :
      String → List (String × Option String) → TreeParser → Option TreeParser
  handle_starttag tag attrs p =
      if leb max_nodes (length p.nodes - 1) || ltb max_depth (length p.stack)
      then some (record p { truncated = true })
      else add_node tag attrs p p.stack

  abbrev pub pop_own : String → TreeParser → List ℕ → Option TreeParser
  pop_own tag p [] = none
  pop_own tag p (top ∷ rest) =
      if has_tag (w.casefold tag) (get_elem? p.nodes top)
      then some (record p { stack = rest })
      else some p

  abbrev pub close_own : String → Option TreeParser → Option TreeParser
  close_own tag none = none
  close_own tag (some p) = pop_own tag p p.stack

  unfoldable pub handle_startendtag :
      String → List (String × Option String) → TreeParser → Option TreeParser
  unfolding handle_starttag
  handle_startendtag tag attrs p = close_own tag (handle_starttag tag attrs p)

  unfoldable pub handle_endtag : String → TreeParser → Option TreeParser
  unfolding close_tag
  handle_endtag tag p =
      some (record p { stack = or_stack p.stack (close_tag p.nodes (w.casefold tag) p.stack) })

  abbrev pub put_text : String → TreeParser → List ℕ → Option TreeParser
  put_text value p [] = none
  put_text value p (top ∷ rest) = some (record p { nodes = modify (add_text value) p.nodes top })

  unfoldable pub handle_data : String → TreeParser → Option TreeParser
  handle_data value p = if p.truncated then some p else put_text value p p.stack

  abbrev pub handle : Event → TreeParser → Option TreeParser
  handle (starttag tag attrs) p = handle_starttag tag attrs p
  handle (startendtag tag attrs) p = handle_startendtag tag attrs p
  handle (endtag tag) p = handle_endtag tag p
  handle (data_part value) p = handle_data value p

  abbrev pub then_handle : (TreeParser → Option TreeParser) → Option TreeParser → Option TreeParser
  then_handle next none = none
  then_handle next (some p) = next p

  unfoldable pub feed : List Event → TreeParser → Option TreeParser
  unfolding handle_starttag handle_startendtag handle_endtag handle_data
  feed [] p = some p
  feed (e ∷ rest) p = then_handle (feed rest) (handle e p)
