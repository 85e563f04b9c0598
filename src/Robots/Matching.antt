-- ===== src/Robots/Matching.antt =====
-- orchestrator/robots_policy.py: the loop of `RobotsRule.matches` against the meaning of a pattern.
use thorondor.Prelude.{
  ℕ, zero, suc, ◌+◌, ◌≤◌, ◌<◌, Bool, true, false, Option, none, some, List, [], ◌∷◌, ◌≡◌, refl, sym,
  ap, ◌∙◌, inl, inr, ◌==◌, ◌&&◌, ◌||◌, not, length, Bool-cases, &&-true, arith,
}
use thorondor.Robots.Glob.{
  star, Backup, run, cost, rounds, glob, some_suffix, denotes, is_star_free,
}
use thorondor.Robots.Behind.{
  some_tail, retry, held, Behind, or_false, or_absorb, some_suffix_lem, Behind-free, Behind-plain,
  Behind-pass, held-cost, held-pass, star_absorbs, retry_end, only_stars_lem,
}

denotes-star :
    (anchored : Bool) (c : ℕ) (p t : List ℕ)
    → (c == star) ≡ true
    → denotes anchored (c ∷ p) t ≡ some_suffix (denotes anchored p) t
unfolding denotes
denotes-star anchored c p t h = rw h refl

denotes-char :
    (anchored : Bool) (c t : ℕ) (p target : List ℕ)
    → (c == star) ≡ false
    → denotes anchored (c ∷ p) (t ∷ target) ≡ ((c == t) && denotes anchored p target)
unfolding denotes
denotes-char anchored c t p target h = rw h refl

run-same :
    (fuel : ℕ) (anchored : Bool) (c t : ℕ) (p target : List ℕ) (backup : Option Backup)
    → (c == t) ≡ true
    → run (suc fuel) anchored (c ∷ p) (t ∷ target) backup ≡ run fuel anchored p target backup
unfolding run
run-same fuel anchored c t p target backup h = rw (h, run) refl

run-star :
    (fuel : ℕ) (anchored : Bool) (c t : ℕ) (p target : List ℕ) (backup : Option Backup)
    → (c == t) ≡ false
    → (c == star) ≡ true
    → run (suc fuel) anchored (c ∷ p) (t ∷ target) backup
      ≡ run fuel anchored p (t ∷ target) (some (record { pattern = p; target = t ∷ target }))
unfolding run
run-star fuel anchored c t p target backup h s = rw (h, s, run) refl

-- What the loop returns with so many rounds left: whether there is a match here or further on.
abbrev Finds : ℕ → ℕ → Bool → Type 0
Finds fuel n anchored =
    (p t : List ℕ) (backup : Option Backup)
    → length p ≤ n
    → Behind n backup p t
    → cost n (held backup t) + length p < fuel
    → run fuel anchored p t backup ≡ some (denotes anchored p t || retry anchored backup)

resume :
    (fuel n : ℕ) (anchored : Bool) (p t : List ℕ)
    → Finds fuel n anchored
    → length p ≤ n
    → is_star_free t ≡ true
    → cost n t < suc fuel
    → (elim t [
      | [] ↦ some false
      | s ∷ later ↦ run fuel anchored p later (some (record { pattern = p; target = later }))
    ])
      ≡ some (some_tail (denotes anchored p) t)
unfolding is_star_free cost
resume fuel n anchored p [] finds short free enough = refl
resume fuel n anchored p (s ∷ later) finds short free enough =
    let rest = (&&-true (not (s == star)) (is_star_free later) free).1 in
    let left : cost n later + length p < fuel = omega (arith, enough, short) in
    finds p later (some (record { pattern = p; target = later })) short
      (short, rest, ([], refl, refl)) left
    ∙ ap (λ found. some found) (some_suffix_lem (denotes anchored p) later)

-- What is left of the loop finds a match where it is, or further on from the last star.
run_same_lem :
    (fuel n : ℕ) (anchored : Bool) (c t : ℕ) (p target : List ℕ) (backup : Option Backup)
    → Finds fuel n anchored
    → length (c ∷ p) ≤ n
    → Behind n backup (c ∷ p) (t ∷ target)
    → cost n (held backup (t ∷ target)) + length (c ∷ p) < suc fuel
    → (c == t) ≡ true
    → run (suc fuel) anchored (c ∷ p) (t ∷ target) backup
      ≡ some (denotes anchored (c ∷ p) (t ∷ target) || retry anchored backup)
run_same_lem fuel n anchored c t p target backup finds short h enough e =
    let equal : c ≡ t = ground (arith, e) in
    let plain : (c == star) ≡ false = Behind-plain n c t backup p target equal h in
    let passed = held-pass n backup t target in
    let left : cost n (held backup target) + length p < fuel = omega (arith, passed, enough) in
    let later =
      finds p target backup (omega (arith, short)) (Behind-pass n c t backup p target equal h)
        left in
    let here : denotes anchored (c ∷ p) (t ∷ target) ≡ denotes anchored p target =
      denotes-char anchored c t p target plain ∙ ap (λ b. b && denotes anchored p target) e in
    run-same fuel anchored c t p target backup e
    ∙ later
    ∙ ap (λ d. some (d || retry anchored backup)) (sym here)

run_star_lem :
    (fuel n : ℕ) (anchored : Bool) (c t : ℕ) (p target : List ℕ) (backup : Option Backup)
    → Finds fuel n anchored
    → length (c ∷ p) ≤ n
    → Behind n backup (c ∷ p) (t ∷ target)
    → cost n (held backup (t ∷ target)) + length (c ∷ p) < suc fuel
    → (c == t) ≡ false
    → (c == star) ≡ true
    → run (suc fuel) anchored (c ∷ p) (t ∷ target) backup
      ≡ some (denotes anchored (c ∷ p) (t ∷ target) || retry anchored backup)
run_star_lem fuel n anchored c t p target backup finds short h enough e s =
    let equal : c ≡ star = ground (arith, s) in
    let free = Behind-free n backup (c ∷ p) (t ∷ target) h in
    let within = held-cost n backup (c ∷ p) (t ∷ target) h in
    let left : cost n (t ∷ target) + length p < fuel = omega (arith, within, enough) in
    let behind_p : length p ≤ n = omega (arith, short) in
    let star_here : Backup = record { pattern = p; target = t ∷ target } in
    let later =
      finds p (t ∷ target) (some star_here) behind_p (behind_p, free, ([], refl, refl)) left in
    let meaning =
      some_suffix_lem (denotes anchored p) (t ∷ target)
      ∙ sym (denotes-star anchored c p (t ∷ target) s) in
    let absorbed =
      or_absorb (denotes anchored (c ∷ p) (t ∷ target)) (retry anchored backup)
        (star_absorbs anchored n backup c p (t ∷ target) equal h) in
    run-star fuel anchored c t p target backup e s
    ∙ later
    ∙ ap (λ d. some d) (meaning ∙ sym absorbed)

run_back_lem :
    (fuel n : ℕ) (anchored : Bool) (c t : ℕ) (p target : List ℕ) (backup : Option Backup)
    → Finds fuel n anchored
    → Behind n backup (c ∷ p) (t ∷ target)
    → cost n (held backup (t ∷ target)) + length (c ∷ p) < suc fuel
    → (c == t) ≡ false
    → (c == star) ≡ false
    → run (suc fuel) anchored (c ∷ p) (t ∷ target) backup
      ≡ some (denotes anchored (c ∷ p) (t ∷ target) || retry anchored backup)
unfolding run
run_back_lem fuel n anchored c t p target none finds h enough e s =
    rw (denotes-char anchored c t p target s, e, s, run) refl
run_back_lem fuel n anchored c t p target (some b) finds (bound, free, parts) enough e s =
    rw (denotes-char anchored c t p target s, e, s, run)
      (resume fuel n anchored b.pattern b.target finds bound free (omega (arith, enough)))

run_lem : (fuel n : ℕ) (anchored : Bool) → Finds fuel n anchored
unfolding run denotes cost
run_lem zero n anchored p t backup short h enough = absurd (ground (arith, enough))
run_lem (suc fuel) n anchored p [] backup short h enough =
    rw (retry_end anchored n backup p h, only_stars_lem anchored p, or_false) refl
run_lem (suc fuel) n false [] (t ∷ target) backup short h enough = refl
run_lem (suc fuel) n true [] (t ∷ target) none short h enough = refl
run_lem (suc fuel) n true [] (t ∷ target) (some b) short (bound, free, parts) enough =
    resume fuel n true b.pattern b.target (run_lem fuel n true) bound free (omega (arith, enough))
run_lem (suc fuel) n anchored (c ∷ p) (t ∷ target) backup short h enough =
    let finds = run_lem fuel n anchored in
    elim (Bool-cases (c == t)) [
      | inl e ↦ run_same_lem fuel n anchored c t p target backup finds short h enough e
      | inr e ↦ elim (Bool-cases (c == star)) [
        | inl s ↦ run_star_lem fuel n anchored c t p target backup finds short h enough e s
        | inr s ↦ run_back_lem fuel n anchored c t p target backup finds h enough e s
      ]
    ]

-- On a target without a star the matcher always ends within its rounds, and finds a match exactly when
-- the pattern denotes one.
pub glob-denotes :
    (anchored : Bool) (pattern target : List ℕ)
    → is_star_free target ≡ true
    → glob anchored pattern target ≡ some (denotes anchored pattern target)
unfolding glob
glob-denotes anchored pattern target free =
    run_lem (rounds pattern target) (length pattern) anchored pattern target none (omega arith) free
      (omega arith)
    ∙ ap (λ d. some d) (or_false (denotes anchored pattern target))
