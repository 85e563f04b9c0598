-- ===== src/TargetWatch/Trees.antt =====
-- orchestrator/target_watch.py: the bounds of `_TreeParser`.
use thorondor.Prelude.{
  ℕ, ◌+◌, ◌-◌, ◌≤◌, Bool, true, false, Option, none, some, List, [], ◌∷◌, ◌≡◌, refl, ◌||◌, leb, ltb,
  if◌then◌else◌, length, get_elem?, All, String, Bool-cases, inl, inr, arith,
}
use thorondor.TargetWatch.{
  Words, TreeParser, Event, starttag, startendtag, endtag, data_part, start_parser, has_tag,
  handle_starttag, pop_own, handle_startendtag, handle_endtag, put_text, handle_data, handle,
  then_handle, feed,
}
use thorondor.TargetWatch.Stacks.{is_open, IsInner, close_tag-Shorter, some_inj}
use thorondor.TargetWatch.Nodes.{
  IsTree, IsAfter, endtag-IsAfter, put_text-IsAfter, add_node-IsAfter, own_node-IsAfter,
}

module _ (w : Words) (max_nodes max_depth : ℕ) where
  -- A page that has been truncated stays so.
  truncated_pop :
      (tag : String) (p : TreeParser) (before : Bool) (stack : List ℕ)
      → p.truncated ≡ true
      → length p.nodes ≤ max_nodes + 1
      → length stack ≤ max_depth + 1
      → length p.stack ≤ max_depth + 1
      → before || is_open stack ≡ true
      → All (IsInner p.nodes) stack
      → All (IsInner p.nodes) p.stack
      → IsAfter w max_nodes max_depth before (pop_own w max_nodes max_depth tag p stack)
  truncated_pop tag p before [] cut wide low deep e inner all = ground (arith, e)
  truncated_pop tag p before (top ∷ rest) cut wide low deep e (it, inner) all =
      elim (Bool-cases (has_tag (w.casefold tag) (get_elem? p.nodes top))) [
        | inl x ↦ rw x (
          record {
            wide = wide;
            deep = omega (arith, low);
            open_node = ground (arith, cut);
            inner = inner;
          },
          ground (arith, cut),
        )
        | inr x ↦ rw x (
          record { wide = wide; deep = deep; open_node = ground (arith, cut); inner = all },
          ground (arith, cut),
        )
      ]

  data-IsAfter :
      (value : String) (p : TreeParser) (cut : Bool)
      → IsTree w max_nodes max_depth p
      → IsAfter w max_nodes max_depth p.truncated
          (if cut then some p else put_text w max_nodes max_depth value p p.stack)
  data-IsAfter value p true h = (h, ground arith)
  data-IsAfter value p false h =
      put_text-IsAfter w max_nodes max_depth value p p.stack h h.open_node

  handle-IsAfter :
      (e : Event) (p : TreeParser)
      → IsTree w max_nodes max_depth p
      → IsAfter w max_nodes max_depth p.truncated (handle w max_nodes max_depth e p)
  unfolding handle_starttag handle_startendtag handle_endtag handle_data
  handle-IsAfter (starttag tag attrs) p h =
      elim (Bool-cases (leb max_nodes (length p.nodes - 1) || ltb max_depth (length p.stack))) [
        | inl x ↦ rw x (
          record { wide = h.wide; deep = h.deep; open_node = refl; inner = h.inner },
          ground arith,
        )
        | inr x ↦ rw x (
            add_node-IsAfter w max_nodes max_depth tag attrs p p.stack (ground (arith, x))
              (ground (arith, x)) h.open_node h.inner)
      ]
  handle-IsAfter (startendtag tag attrs) p h =
      elim (Bool-cases (leb max_nodes (length p.nodes - 1) || ltb max_depth (length p.stack))) [
        | inl x ↦ rw x (
            truncated_pop tag (record p { truncated = true }) p.truncated p.stack refl h.wide h.deep
              h.deep h.open_node h.inner h.inner)
        | inr x ↦ rw x (
            own_node-IsAfter w max_nodes max_depth tag attrs p p.stack (ground (arith, x))
              (ground (arith, x)) h.open_node h.inner)
      ]
  handle-IsAfter (endtag tag) p h =
      endtag-IsAfter w max_nodes max_depth p _ h
        (close_tag-Shorter p.nodes (w.casefold tag) p.stack h.inner)
  handle-IsAfter (data_part value) p h = data-IsAfter value p p.truncated h

  pub start_parser-IsTree : IsTree w max_nodes max_depth start_parser
  start_parser-IsTree = record {
    wide = omega arith;
    deep = omega arith;
    open_node = refl;
    inner = ((_, refl, refl), tt);
  }

  later_feed :
      (rest : List Event) (before : Bool) (found : Option TreeParser) (p : TreeParser)
      → IsAfter w max_nodes max_depth before found
      → ((q : TreeParser)
          → IsTree w max_nodes max_depth q
          → feed w max_nodes max_depth rest q ≡ some p
          → IsTree w max_nodes max_depth p)
      → then_handle w max_nodes max_depth (feed w max_nodes max_depth rest) found ≡ some p
      → IsTree w max_nodes max_depth p
  later_feed rest before none p h next e = absurd cc
  later_feed rest before (some q) p (tree, kept) next e = next q tree e

  feed_from :
      (events : List Event) (q p : TreeParser)
      → IsTree w max_nodes max_depth q
      → feed w max_nodes max_depth events q ≡ some p
      → IsTree w max_nodes max_depth p
  unfolding feed
  feed_from [] q p h e = let same : q ≡ p = some_inj e in rw (← same) h
  feed_from (event ∷ rest) q p h e =
      later_feed rest q.truncated _ p (handle-IsAfter event q h)
        (λ r tree f. feed_from rest r p tree f) e

  -- Whatever html.parser calls: the tree has at most `max_nodes` nodes but for its root, at most
  -- `max_depth` of them are open at a time, none of these is a void element, and a node is open unless the
  -- page is truncated.
  pub feed-IsTree :
      (events : List Event) (p : TreeParser)
      → feed w max_nodes max_depth events start_parser ≡ some p
      → IsTree w max_nodes max_depth p
  feed-IsTree events p e = feed_from events start_parser p start_parser-IsTree e

  -- A call fails only on a page that is truncated already, and a truncated page stays truncated.
  pub handle-IsAfter_fed :
      (events : List Event) (p : TreeParser) (event : Event)
      → feed w max_nodes max_depth events start_parser ≡ some p
      → IsAfter w max_nodes max_depth p.truncated (handle w max_nodes max_depth event p)
  handle-IsAfter_fed events p event e = handle-IsAfter event p (feed-IsTree events p e)
