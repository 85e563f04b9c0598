-- ===== src/TargetWatch/Nodes.antt =====
-- orchestrator/target_watch.py: what the calls of `_TreeParser` do to its nodes and its stack.
use thorondor.Prelude.{
  str_eq, eq_iff, ℕ, ◌+◌, ◌≤◌, Bool, true, false, Option, none, some, List, [], ◌∷◌, ◌++◌, ◌≡◌,
  refl, sym, ◌∙◌, ◌||◌, not, length, get_elem?, modify, length-append, length-modify, All, String,
  Bool-cases, inl, inr, arith,
}
use thorondor.TargetWatch.{
  Words, Node, add_child, add_text, new_node, TreeParser, has_tag, is_void, or_stack, add_node,
  close_own, put_text,
}
use thorondor.TargetWatch.Stacks.{
  is_open, IsInner, Shorter, modify-IsInner_each, append-IsInner, last_at,
}

module _ (w : Words) (max_nodes max_depth : ℕ) where
  -- The nodes without the root, and the open nodes with it; and one is open unless the page is truncated.
  pub record IsTree (p : TreeParser) : Type 0 where
    pub wide : length p.nodes ≤ max_nodes + 1
    pub deep : length p.stack ≤ max_depth + 1
    pub open_node : p.truncated || is_open p.stack ≡ true
    pub inner : All (IsInner p.nodes) p.stack

  -- What calls may come to: a tree, or an exception, which a truncated page alone can lead to.
  abbrev pub IsAfter : Bool → Option TreeParser → Type 0
  IsAfter truncated none = truncated ≡ true
  IsAfter truncated (some p) = IsTree p × (not truncated || p.truncated ≡ true)

  pub endtag-IsAfter :
      (p : TreeParser) (found : Option (List ℕ))
      → IsTree p
      → Shorter p.nodes p.stack found
      → IsAfter p.truncated (some (record p { stack = or_stack p.stack found }))
  endtag-IsAfter p none h s = (
    record { wide = h.wide; deep = h.deep; open_node = h.open_node; inner = h.inner },
    ground arith,
  )
  endtag-IsAfter p (some rest) h (size, open_rest, inner) = (
    record {
      wide = h.wide;
      deep = omega (arith, h.deep, size);
      open_node = ground (arith, open_rest);
      inner = inner;
    },
    ground arith,
  )

  pub put_text-IsAfter :
      (value : String) (p : TreeParser) (stack : List ℕ)
      → IsTree p
      → p.truncated || is_open stack ≡ true
      → IsAfter p.truncated (put_text w max_nodes max_depth value p stack)
  put_text-IsAfter value p [] h e = ground (arith, e)
  put_text-IsAfter value p (top ∷ rest) h e = (
    record {
      wide = omega (arith, h.wide, length-modify (add_text value) p.nodes top);
      deep = h.deep;
      open_node = h.open_node;
      inner = modify-IsInner_each (add_text value) p.nodes top p.stack (λ n. refl) h.inner;
    },
    ground arith,
  )

  -- A start tag on a page that has room for it.
  new_node-IsInner :
      (tag : String) (attrs : List (String × Option String)) (nodes : List Node) (top : ℕ)
      → is_void (w.casefold tag) ≡ false
      → IsInner
          (modify (add_child (length nodes)) nodes top
            ++ new_node w max_nodes max_depth tag attrs top ∷ [])
          (length nodes)
  new_node-IsInner tag attrs nodes top other =
      let new = new_node w max_nodes max_depth tag attrs top in
      let end = sym (length-modify (add_child (length nodes)) nodes top) in
      (new, last_at (modify (add_child (length nodes)) nodes top) new (length nodes) end, other)

  with_node-IsInner :
      (tag : String) (attrs : List (String × Option String)) (nodes : List Node) (top : ℕ)
      (stack : List ℕ)
      → All (IsInner nodes) stack
      → All
          (IsInner (
            modify (add_child (length nodes)) nodes top
            ++ new_node w max_nodes max_depth tag attrs top ∷ []))
          stack
  with_node-IsInner tag attrs nodes top stack h =
      append-IsInner (modify (add_child (length nodes)) nodes top) _ stack
        (modify-IsInner_each (add_child (length nodes)) nodes top stack (λ n. refl) h)

  abbrev with_node : String → List (String × Option String) → TreeParser → ℕ → List ℕ → TreeParser
  with_node tag attrs p top stack = record {
    nodes =
        modify (add_child (length p.nodes)) p.nodes top
        ++ new_node w max_nodes max_depth tag attrs top ∷ [];
    stack = stack;
    truncated = p.truncated;
  }

  with_node-IsTree :
      (tag : String) (attrs : List (String × Option String)) (p : TreeParser) (top : ℕ)
      (stack : List ℕ)
      → length p.nodes ≤ max_nodes
      → length stack ≤ max_depth + 1
      → is_open stack ≡ true
      → All (IsInner (with_node tag attrs p top stack).nodes) stack
      → IsAfter p.truncated (some (with_node tag attrs p top stack))
  with_node-IsTree tag attrs p top stack room deep open_node inner = (
    record {
      wide = omega (
        arith,
        room,
        length-modify (add_child (length p.nodes)) p.nodes top,
        length-append (modify (add_child (length p.nodes)) p.nodes top)
            (new_node w max_nodes max_depth tag attrs top ∷ []),
      );
      deep = deep;
      open_node = ground (arith, open_node);
      inner = inner;
    },
    ground arith,
  )

  pub add_node-IsAfter :
      (tag : String) (attrs : List (String × Option String)) (p : TreeParser) (stack : List ℕ)
      → length p.nodes ≤ max_nodes
      → length stack ≤ max_depth
      → p.truncated || is_open stack ≡ true
      → All (IsInner p.nodes) stack
      → IsAfter p.truncated (add_node w max_nodes max_depth tag attrs p stack)
  add_node-IsAfter tag attrs p [] room low e inner = ground (arith, e)
  add_node-IsAfter tag attrs p (top ∷ rest) room low e inner =
      let old = with_node-IsInner tag attrs p.nodes top (top ∷ rest) inner in
      elim (Bool-cases (is_void (w.casefold tag))) [
        | inl x ↦
            rw x (with_node-IsTree tag attrs p top (top ∷ rest) room (omega (arith, low)) refl old)
        | inr x ↦ rw x (
            with_node-IsTree tag attrs p top (length p.nodes ∷ top ∷ rest) room (omega (arith, low))
              refl (new_node-IsInner tag attrs p.nodes top x, old))
      ]

  void_apart :
      (tag : String) (nodes : List Node) (top : ℕ)
      → is_void tag ≡ true
      → IsInner nodes top
      → has_tag tag (get_elem? nodes top) ≡ false
  void_apart tag nodes top void (n, at, inner) = rw at (elim (Bool-cases (str_eq n.tag tag)) [
    | inl e ↦
        let same : n.tag ≡ tag = (eq_iff n.tag tag).0 e in
        let no : is_void tag ≡ false = rw (← same) inner in
        let both : true ≡ false = sym void ∙ no in absurd cc
    | inr e ↦ e
  ])

  pub own_node-IsAfter :
      (tag : String) (attrs : List (String × Option String)) (p : TreeParser) (stack : List ℕ)
      → length p.nodes ≤ max_nodes
      → length stack ≤ max_depth
      → p.truncated || is_open stack ≡ true
      → All (IsInner p.nodes) stack
      → IsAfter p.truncated
          (close_own w max_nodes max_depth tag (add_node w max_nodes max_depth tag attrs p stack))
  own_node-IsAfter tag attrs p [] room low e inner = ground (arith, e)
  own_node-IsAfter tag attrs p (top ∷ rest) room low e inner =
      let old = with_node-IsInner tag attrs p.nodes top (top ∷ rest) inner in
      let kept = with_node-IsTree tag attrs p top (top ∷ rest) room (omega (arith, low)) refl old in
      elim (Bool-cases (is_void (w.casefold tag))) [
        | inl x ↦ rw (x, void_apart (w.casefold tag) _ top x old.0) kept
        | inr x ↦
            rw x
              (elim (Bool-cases (
                has_tag (w.casefold tag)
                  (get_elem? (with_node tag attrs p top []).nodes (length p.nodes)))) [
                    | inl y ↦ rw y kept
                    | inr y ↦ rw y (
                        with_node-IsTree tag attrs p top (length p.nodes ∷ top ∷ rest) room
                          (omega (arith, low)) refl (new_node-IsInner tag attrs p.nodes top x, old))
                  ])
      ]
