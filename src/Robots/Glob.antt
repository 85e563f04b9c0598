-- ===== src/Robots/Glob.antt =====
-- orchestrator/robots_policy.py: the loop of `RobotsRule.matches`. The two indexes are what is left
-- of the pattern and of the target; `star_index` and `star_target` are what stood behind the last
-- star, if there was one. `none` is a loop that ran out of rounds.
use thorondor.Prelude.{
  ℕ, zero, suc, ◌+◌, Bool, true, false, Option, none, some, List, [], ◌∷◌, ◌==◌, ◌&&◌, ◌||◌, not,
  if◌then◌else◌, length,
}

abbrev pub star : ℕ
star = b'*'

pub record Backup : Type 0 where
  pub pattern : List ℕ
  pub target : List ℕ

-- The loop after the loop: only stars are left of the pattern.
unfoldable pub only_stars : List ℕ → Bool
only_stars [] = true
only_stars (c ∷ rest) = let more = only_stars rest in if c == star then more else false

unfoldable pub run : ℕ → Bool → List ℕ → List ℕ → Option Backup → Option Bool
unfolding only_stars
run zero anchored pattern target backup = none
run (suc fuel) anchored pattern [] backup = some (only_stars pattern)
run (suc fuel) false [] (t ∷ target) backup = some true
run (suc fuel) true [] (t ∷ target) none = some false
run (suc fuel) true [] (t ∷ target) (some b) = elim b.target [
  | [] ↦ some false
  | s ∷ later ↦
      run fuel true b.pattern later (some (record { pattern = b.pattern; target = later }))
]
run (suc fuel) anchored (c ∷ pattern) (t ∷ target) backup = elim (c == t) [
  | true ↦ run fuel anchored pattern target backup
  | false ↦ elim (c == star) [
    | true ↦
        run fuel anchored pattern (t ∷ target)
          (some (record { pattern = pattern; target = t ∷ target }))
    | false ↦ elim backup [
      | none ↦ some false
      | some b ↦ elim b.target [
        | [] ↦ some false
        | s ∷ later ↦
            run fuel anchored b.pattern later
              (some (record { pattern = b.pattern; target = later }))
      ]
    ]
  ]
]

-- What `n` characters of pattern can cost at each character of the target.
unfoldable pub cost : ℕ → List ℕ → ℕ
cost n [] = 0
cost n (t ∷ target) = cost n target + (n + 1)

-- The rounds that the loop takes at most.
abbrev pub rounds : List ℕ → List ℕ → ℕ
rounds pattern target = cost (length pattern) target + length pattern + 1

unfoldable pub glob : Bool → List ℕ → List ℕ → Option Bool
unfolding run cost
glob anchored pattern target = run (rounds pattern target) anchored pattern target none

-- The meaning of a pattern, by recursion on it: a star stands for any characters, and what follows the
-- pattern is free unless the pattern is anchored.
unfoldable pub some_suffix : (List ℕ → Bool) → List ℕ → Bool
some_suffix test [] = test []
some_suffix test (t ∷ target) = test (t ∷ target) || some_suffix test target

abbrev pub starts_with : ℕ → (List ℕ → Bool) → List ℕ → Bool
starts_with c test [] = false
starts_with c test (t ∷ target) = (c == t) && test target

abbrev pub is_done : Bool → List ℕ → Bool
is_done anchored [] = true
is_done anchored (t ∷ target) = not anchored

unfoldable pub denotes : Bool → List ℕ → List ℕ → Bool
denotes anchored [] target = is_done anchored target
denotes anchored (c ∷ pattern) target =
    let rest = denotes anchored pattern in
    if c == star then some_suffix rest target else starts_with c rest target

-- Whether no character is a star.
unfoldable pub is_star_free : List ℕ → Bool
is_star_free [] = true
is_star_free (t ∷ rest) = not (t == star) && is_star_free rest
