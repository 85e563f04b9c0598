-- ===== src/TargetWatch/Stacks.antt =====
-- orchestrator/target_watch.py: the open nodes of `_TreeParser`.
use thorondor.Prelude.{
  ℕ, ◌≤◌, Bool, true, false, Option, none, some, List, [], ◌∷◌, ◌++◌, ◌≡◌, refl, length, get_elem?,
  modify, get_elem?-modify, get_elem?-concat_left, get_elem?-concat_last, All, String, Bool-cases,
  inl, inr, arith,
}
use thorondor.TargetWatch.{Node, TreeParser, has_tag, is_void, close_tag}

abbrev pub is_open : List ℕ → Bool
is_open [] = false
is_open (i ∷ rest) = true

-- A node that stands on the stack.
abbrev pub IsInner : List Node → ℕ → Type 0
IsInner nodes i = (n : Node) × (get_elem? nodes i ≡ some n) × (is_void n.tag ≡ false)

abbrev pub Shorter : List Node → List ℕ → Option (List ℕ) → Type 0
Shorter nodes stack none = Unit
Shorter nodes stack (some rest) =
    (length rest ≤ length stack) × (is_open rest ≡ true) × All (IsInner nodes) rest

Shorter-cons :
    (nodes : List Node) (i : ℕ) (stack : List ℕ) (found : Option (List ℕ))
    → Shorter nodes stack found
    → Shorter nodes (i ∷ stack) found
Shorter-cons nodes i stack none h = tt
Shorter-cons nodes i stack (some rest) (size, open_rest, h) = (omega (arith, size), open_rest, h)

pub close_tag-Shorter :
    (nodes : List Node) (tag : String) (stack : List ℕ)
    → All (IsInner nodes) stack
    → Shorter nodes stack (close_tag nodes tag stack)
unfolding close_tag
close_tag-Shorter nodes tag [] h = tt
close_tag-Shorter nodes tag (i ∷ []) h = tt
close_tag-Shorter nodes tag (i ∷ j ∷ rest) (hi, h) =
    elim (Bool-cases (has_tag tag (get_elem? nodes i))) [
      | inl e ↦ rw e (omega arith, refl, h)
      | inr e ↦ rw e (Shorter-cons nodes i (j ∷ rest) _ (close_tag-Shorter nodes tag (j ∷ rest) h))
    ]

-- Changes of a node that leave its tag leave the inner nodes inner.
modify-IsInner :
    (f : Node → Node) (nodes : List Node) (k i : ℕ)
    → ((n : Node) → (f n).tag ≡ n.tag)
    → IsInner nodes i
    → IsInner (modify f nodes k) i
modify-IsInner f nodes k i same (n, at, inner) =
    let (now, found, change) = get_elem?-modify f nodes k i n at in
    (now, found, elim change [ inl e ↦ rw e inner | inr e ↦ rw (e, same n) inner ])

pub modify-IsInner_each :
    (f : Node → Node) (nodes : List Node) (k : ℕ) (stack : List ℕ)
    → ((n : Node) → (f n).tag ≡ n.tag)
    → All (IsInner nodes) stack
    → All (IsInner (modify f nodes k)) stack
modify-IsInner_each f nodes k [] same h = tt
modify-IsInner_each f nodes k (i ∷ rest) same (hi, h) =
    (modify-IsInner f nodes k i same hi, modify-IsInner_each f nodes k rest same h)

pub append-IsInner :
    (nodes : List Node) (new : Node) (stack : List ℕ)
    → All (IsInner nodes) stack
    → All (IsInner (nodes ++ new ∷ [])) stack
append-IsInner nodes new [] h = tt
append-IsInner nodes new (i ∷ rest) ((n, at, inner), h) =
    ((n, get_elem?-concat_left nodes new i n at, inner), append-IsInner nodes new rest h)

pub last_at :
    (nodes : List Node) (new : Node) (k : ℕ)
    → k ≡ length nodes
    → get_elem? (nodes ++ new ∷ []) k ≡ some new
last_at nodes new k e = rw e (get_elem?-concat_last nodes new)

pub some_inj : {a b : TreeParser} → ◌≡◌ {A = Option TreeParser} (some a) (some b) → a ≡ b
some_inj h = cc
