-- ===== src/Robots/Behind.antt =====
-- orchestrator/robots_policy.py: what holds of the loop of `RobotsRule.matches` between its last
-- star and the place where it is.
use thorondor.Prelude.{
  ℕ, ◌+◌, ◌≤◌, Bool, true, false, Option, none, some, List, [], ◌∷◌, ◌++◌, ◌≡◌, refl, sym, ap, ◌∙◌,
  inl, inr, ◌==◌, ◌||◌, not, length, length-append, Bool-cases, &&-true, arith,
}
use mathlib.Core.List.{append_assoc}
use thorondor.Robots.Glob.{star, Backup, only_stars, cost, some_suffix, denotes, is_star_free}
use thorondor.Robots.Suffixes.{
  some_suffix-append, some_suffix_split, append_behind, length-parts, denotes-append, cost-append,
  is_star_free-append,
}

-- The proper suffixes of a target.
abbrev pub some_tail : (List ℕ → Bool) → List ℕ → Bool
some_tail test [] = false
some_tail test (t ∷ target) = some_suffix test target

-- What the loop finds from the last star on, apart from where it is.
abbrev pub retry : Bool → Option Backup → Bool
retry anchored none = false
retry anchored (some b) = some_tail (denotes anchored b.pattern) b.target

-- Where a round starts that stands behind the last star.
abbrev pub held : Option Backup → List ℕ → List ℕ
held none target = target
held (some b) target = b.target

-- Since the last star the loop has passed the same characters, none of them a star, in both.
abbrev pub Behind : ℕ → Option Backup → List ℕ → List ℕ → Type 0
Behind n none p t = is_star_free t ≡ true
Behind n (some b) p t =
    (length b.pattern ≤ n)
    × (is_star_free b.target ≡ true)
    × ((x : List ℕ) × (b.pattern ≡ x ++ p) × (b.target ≡ x ++ t))

-- A proper suffix on which a pattern that begins with passed characters matches is behind them.
some_tail_behind :
    (anchored : Bool) (x p t : List ℕ)
    → is_star_free x ≡ true
    → some_tail (denotes anchored (x ++ p)) (x ++ t) ≡ true
    → (w v : List ℕ) × (t ≡ w ++ v) × (denotes anchored p v ≡ true) × (1 ≤ length w)
some_tail_behind anchored [] p [] free h = absurd cc
some_tail_behind anchored [] p (a ∷ t) free h =
    let (w, u, same, passes) = some_suffix_split (denotes anchored p) t h in
    (a ∷ w, u, ap (λ rest. a ∷ rest) same, passes, omega arith)
some_tail_behind anchored (a ∷ x) p t free h =
    let (w, u, same, passes) = some_suffix_split (denotes anchored (a ∷ x ++ p)) (x ++ t) h in
    let (v, begins, later) = denotes-append anchored (a ∷ x) p u free passes in
    let whole : (x ++ t) ≡ ((w ++ a ∷ x) ++ v) =
      same ∙ ap (λ rest. w ++ rest) begins ∙ sym (append_assoc w (a ∷ x) v) in
    let enough : length x ≤ length (w ++ a ∷ x) = rw length-append (omega arith) in
    let (w', parts) = append_behind x t (w ++ a ∷ x) v whole enough in
    let sizes = length-parts x t (w ++ a ∷ x) v whole in
    let front = length-append w (a ∷ x) in
    let back : length t ≡ length w' + length v = ap length parts ∙ length-append w' v in
    (w', v, parts, later, omega (arith, sizes, front, back))

-- A match further on from the last star is one from the star that stands here.
pub star_absorbs :
    (anchored : Bool) (n : ℕ) (backup : Option Backup) (c : ℕ) (p t : List ℕ)
    → c ≡ star
    → Behind n backup (c ∷ p) t
    → retry anchored backup ≡ true
    → denotes anchored (c ∷ p) t ≡ true
unfolding denotes
star_absorbs anchored n none c p t same h e = absurd cc
star_absorbs anchored n (some b) c p t same (bound, free, (x, same_p, same_t)) e =
    let (free_x, rest) = is_star_free-append x t (rw same_t at free) in
    let tail : some_tail (denotes anchored (x ++ c ∷ p)) (x ++ t) ≡ true =
      rw (same_p, same_t) at e in
    let (w, v, parts, passes, long) = some_tail_behind anchored x (c ∷ p) t free_x tail in
    let is_star : (c == star) ≡ true = ground (arith, same) in
    rw (is_star, parts) (some_suffix-append (denotes anchored p) w v (rw is_star at passes))

-- Where the target ends there is no match further on.
pub retry_end :
    (anchored : Bool) (n : ℕ) (backup : Option Backup) (p : List ℕ)
    → Behind n backup p []
    → retry anchored backup ≡ false
retry_end anchored n none p h = refl
retry_end anchored n (some b) p (bound, free, (x, same_p, same_t)) =
    elim (Bool-cases (retry anchored (some b))) [
      | inl e ↦
          let (free_x, rest) = is_star_free-append x [] (rw same_t at free) in
          let tail : some_tail (denotes anchored (x ++ p)) (x ++ []) ≡ true =
            rw (same_p, same_t) at e in
          let (w, v, parts, passes, long) = some_tail_behind anchored x p [] free_x tail in
          let size : length w + length v ≡ 0 = sym (length-append w v) ∙ ap length (sym parts) in
          absurd (ground (arith, size, long))
      | inr e ↦ e
    ]

pub only_stars_lem : (anchored : Bool) (p : List ℕ) → only_stars p ≡ denotes anchored p []
unfolding only_stars denotes some_suffix
only_stars_lem anchored [] = refl
only_stars_lem anchored (c ∷ p) =
    let rest = only_stars_lem anchored p in
    elim (Bool-cases (c == star)) [ inl e ↦ rw (e, rest) refl | inr e ↦ rw e refl ]

pub or_false : (b : Bool) → (b || false) ≡ b
or_false true = refl
or_false false = refl

pub or_absorb : (d r : Bool) → (r ≡ true → d ≡ true) → (d || r) ≡ d
or_absorb true r h = refl
or_absorb false true h = sym (h refl)
or_absorb false false h = refl

pub some_suffix_lem :
    (test : List ℕ → Bool) (t : List ℕ) → (test t || some_tail test t) ≡ some_suffix test t
unfolding some_suffix
some_suffix_lem test [] = or_false (test [])
some_suffix_lem test (a ∷ t) = refl

pub Behind-free :
    (n : ℕ) (backup : Option Backup) (p t : List ℕ) → Behind n backup p t → is_star_free t ≡ true
Behind-free n none p t h = h
Behind-free n (some b) p t (bound, free, (x, same_p, same_t)) =
    (is_star_free-append x t (rw same_t at free)).1

pub Behind-plain :
    (n c t : ℕ) (backup : Option Backup) (p target : List ℕ)
    → c ≡ t
    → Behind n backup (c ∷ p) (t ∷ target)
    → (c == star) ≡ false
unfolding is_star_free
Behind-plain n c t backup p target same h =
    let free = Behind-free n backup (c ∷ p) (t ∷ target) h in
    let (here, later) = &&-true (not (t == star)) (is_star_free target) free in
    ground (arith, here, same)

pub Behind-pass :
    (n c t : ℕ) (backup : Option Backup) (p target : List ℕ)
    → c ≡ t
    → Behind n backup (c ∷ p) (t ∷ target)
    → Behind n backup p target
unfolding is_star_free
Behind-pass n c t none p target same h = (&&-true (not (t == star)) (is_star_free target) h).1
Behind-pass n c t (some b) p target same (bound, free, (x, same_p, same_t)) = (
  bound,
  free,
  (
    x ++ c ∷ [],
    same_p ∙ sym (append_assoc x (c ∷ []) p),
    same_t ∙ ap (λ d. x ++ d ∷ target) (sym same) ∙ sym (append_assoc x (c ∷ []) target),
  ),
)

pub held-cost :
    (n : ℕ) (backup : Option Backup) (p t : List ℕ)
    → Behind n backup p t
    → cost n t ≤ cost n (held backup t)
held-cost n none p t h = omega arith
held-cost n (some b) p t (bound, free, (x, same_p, same_t)) = rw same_t (cost-append n x t)

pub held-pass :
    (n : ℕ) (backup : Option Backup) (t : ℕ) (target : List ℕ)
    → cost n (held backup target) ≤ cost n (held backup (t ∷ target))
unfolding cost
held-pass n none t target = omega arith
held-pass n (some b) t target = omega arith
