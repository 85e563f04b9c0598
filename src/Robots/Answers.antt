-- ===== src/Robots/Answers.antt =====
-- orchestrator/robots_policy.py: what `allows` says of the snapshot that `from_http` makes.
use thorondor.Prelude.{
  ℕ, ◌≤◌, ◌<◌, Bool, true, false, Option, none, some, List, ◌≡◌, ◌⊎◌, refl, ltb, String, Bool-cases,
  Option-cases, inl, inr, arith,
}
use thorondor.Robots.Octets.{Unicode}
use thorondor.Robots.Rules.{RobotsSnapshot, SnapshotState, SplitUrl, allows}
use thorondor.Robots.Groups.{Texts}
use thorondor.Robots.Snapshots.{
  HttpAnswer, is_client_error, is_unreachable, parse, from_http, without_rules,
}

-- Without an answer, or with a redirection or a server's error, the snapshot that is kept decides, and
-- nothing is allowed if there is none.
abbrev pub kept_allows : Unicode → Option RobotsSnapshot → SplitUrl → Option Bool
kept_allows u none url = some false
kept_allows u (some old) url = allows u old url

kept_lem :
    (u : Unicode) (t : Texts) (origin : String) (agent : List ℕ) (now : ℕ)
    (cached : Option RobotsSnapshot) (url : SplitUrl)
    → allows u
        (elim cached [
          | some old ↦ old
          | none ↦ without_rules origin agent SnapshotState.unreachable now "upstream_unreachable"
        ])
        url
      ≡ kept_allows u cached url
unfolding allows
kept_lem u t origin agent now none url = refl
kept_lem u t origin agent now (some old) url = refl

-- There was no answer, or a redirection or a server's error.
abbrev pub NoAnswer : HttpAnswer → Type 0
NoAnswer answer =
    (answer.status_code ≡ none)
    ⊎ ((code : ℕ) × (answer.status_code ≡ some code)
        × ((500 ≤ code) ⊎ ((300 ≤ code) × (code < 400))))

abbrev pub ClientError : HttpAnswer → Type 0
ClientError answer = (code : ℕ) × (answer.status_code ≡ some code) × (400 ≤ code) × (code < 500)

-- The answer has a body.
abbrev pub Answered : HttpAnswer → Type 0
Answered answer = (code : ℕ) × (answer.status_code ≡ some code) × (code < 300)

-- The class of an answer by its status.
class_of : (answer : HttpAnswer) → ClientError answer ⊎ (NoAnswer answer ⊎ Answered answer)
class_of answer = elim (Option-cases answer.status_code) [
  | inl e ↦ inr (inl (inl e))
  | inr (code, e) ↦ elim (Bool-cases (ltb code 300)) [
    | inl a ↦ inr (inr (code, e, ground (arith, a)))
    | inr a ↦ elim (Bool-cases (ltb code 400)) [
      | inl b ↦ inr (inl (inr (code, e, inr (ground (arith, a), ground (arith, b)))))
      | inr b ↦ elim (Bool-cases (ltb code 500)) [
        | inl c ↦ inl (code, e, ground (arith, b), ground (arith, c))
        | inr c ↦ inr (inl (inr (code, e, inl (ground (arith, c)))))
      ]
    ]
  ]
]

-- What an answer says of a URL, with the snapshot that was held before.
abbrev pub Ruled :
    Unicode
    → Texts
    → String
    → List ℕ
    → HttpAnswer
    → ℕ
    → ℕ
    → Option RobotsSnapshot
    → SplitUrl
    → Option Bool
    → Type 0
Ruled u t origin agent answer now max_bytes cached url verdict =
    (ClientError answer × (verdict ≡ some true))
    ⊎ ((NoAnswer answer × (verdict ≡ kept_allows u cached url))
        ⊎ ((Answered answer × (max_bytes < answer.body_bytes) × (verdict ≡ some false))
            ⊎ (Answered answer
                × (answer.body_bytes ≤ max_bytes)
                × (verdict ≡ allows u (parse t origin answer.directives agent now) url))))

client_lem :
    (status : Option ℕ) (code : ℕ)
    → status ≡ some code
    → 400 ≤ code
    → code < 500
    → is_client_error status ≡ true
client_lem status code e h k = rw e (ground (arith, h, k))

unreachable_lem :
    (answer : HttpAnswer)
    → NoAnswer answer
    → (is_client_error answer.status_code ≡ false) × (is_unreachable answer.status_code ≡ true)
unreachable_lem answer (inl e) = rw e (refl, refl)
unreachable_lem answer (inr (code, e, inl h)) = rw e (ground (arith, h), ground (arith, h))
unreachable_lem answer (inr (code, e, inr (h, k))) =
    rw e (ground (arith, h, k), ground (arith, h, k))

answered_lem :
    (answer : HttpAnswer)
    → Answered answer
    → (is_client_error answer.status_code ≡ false) × (is_unreachable answer.status_code ≡ false)
answered_lem answer (code, e, h) = rw e (ground (arith, h), ground (arith, h))

-- After a client's error, a status from 400 to 499, every URL is allowed; without an answer, after a
-- redirection (300 to 399) or a server's error (500 and more), those that the snapshot held before
-- allows, and none if there was none; and after any other answer none if its body is too large, and
-- otherwise those that the rules of the body allow.
pub allows-from_http :
    (u : Unicode) (t : Texts) (origin : String) (agent : List ℕ) (answer : HttpAnswer)
    (now max_bytes : ℕ) (cached : Option RobotsSnapshot) (url : SplitUrl)
    → Ruled u t origin agent answer now max_bytes cached url
        (allows u (from_http t origin agent answer now max_bytes cached) url)
unfolding from_http allows
allows-from_http u t origin agent answer now max_bytes cached url = elim (class_of answer) [
  | inl (code, e, h, k) ↦ inl ((code, e, h, k), rw (client_lem answer.status_code code e h k) refl)
  | inr (inl gone) ↦
      let (client, out) = unreachable_lem answer gone in
      inr (inl (gone, rw (client, out) (kept_lem u t origin agent now cached url)))
  | inr (inr there) ↦
      let (client, out) = answered_lem answer there in
      elim (Bool-cases (ltb max_bytes answer.body_bytes)) [
        | inl g ↦ inr (inr (inl (there, ground (arith, g), rw (client, out, g) refl)))
        | inr g ↦ inr (inr (inr (there, ground (arith, g), rw (client, out, g) refl)))
      ]
]
