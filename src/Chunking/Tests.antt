-- ===== src/Chunking/Tests.antt =====
-- semantic-chunking-service/chunking/cluster_semantic.py: runs of the model with numbers as rewards.
use thorondor.Prelude.{
  ℕ, ◌+◌, true, false, List, [], ◌∷◌, ◌≡◌, refl, ltb, leb, ◌==◌, ◌&&◌, if◌then◌else◌, arith,
}
use thorondor.Chunking.{
  Rewards, Sizes, cumsum, token_count, greedy_fallback, greedy_merge, optimal_groupings, groupings,
}
use thorondor.Chunking.Best.{IsOrdered}
use thorondor.Chunking.Greedy.{Covers, greedy_merge-Covers}
use thorondor.Chunking.Choice.{IsChoice, optimal_groupings-IsChoice, groupings-Covers}

-- Segments 1 and 2 are similar, and no others.
abbrev rewards : Rewards ℕ
rewards = record {
  nought = 0;
  add = λ a b. a + b;
  lt = ltb;
  pairs = λ start end. if leb start 1 && leb 3 end then 5 else 0;
}

lt_asymm : (a b : ℕ) → ltb a b ≡ true → ltb b a ≡ false
lt_asymm a b h = ground (arith, h)

le_trans : (a b c : ℕ) → ltb b a ≡ false → ltb c b ≡ false → ltb c a ≡ false
le_trans a b c h k = ground (arith, h, k)

add_mono : (a b c : ℕ) → ltb b a ≡ false → ltb (b + c) (a + c) ≡ false
add_mono a b c h = ground (arith, h)

rewards-IsOrdered : IsOrdered rewards
rewards-IsOrdered = record { lt_asymm = lt_asymm; le_trans = le_trans; add_mono = add_mono }

abbrev sizes : Sizes
sizes = record { max_chunk_size = 20; min_chunk_size = 5 }

abbrev lengths : List ℕ
lengths = 10 ∷ 10 ∷ 10 ∷ 10 ∷ []

-- The greedy grouping would part segments 1 and 2.
groupings_run : groupings rewards sizes lengths ≡ (0, 1) ∷ (1, 3) ∷ (3, 4) ∷ []
unfolding groupings
groupings_run = refl

fallback_run : greedy_fallback 20 lengths ≡ (0, 2) ∷ (2, 4) ∷ []
unfolding greedy_fallback
fallback_run = refl

-- A segment that is too large leaves no chunking.
too_large_run : groupings rewards sizes (10 ∷ 30 ∷ []) ≡ (0, 1) ∷ (1, 2) ∷ []
unfolding groupings
too_large_run = refl

merge_run : greedy_merge sizes (λ i. i == 2) 4 (4 ∷ 4 ∷ 4 ∷ []) ≡ (0, 2) ∷ (2, 4) ∷ []
unfolding greedy_merge
merge_run = refl

optimal_groupings-IsChoice_example :
    IsChoice rewards sizes lengths (optimal_groupings rewards sizes lengths)
optimal_groupings-IsChoice_example =
    optimal_groupings-IsChoice rewards sizes lengths rewards-IsOrdered

groupings-Covers_example :
    Covers (token_count (cumsum 0 lengths)) 20 0 (groupings rewards sizes lengths) 4
groupings-Covers_example = groupings-Covers rewards sizes lengths rewards-IsOrdered

greedy_merge-Covers_example :
    Covers
      (token_count (cumsum 0 lengths))
      20
      0
      (greedy_merge sizes (λ i. false) 10 (10 ∷ 10 ∷ 10 ∷ []))
      4
greedy_merge-Covers_example = greedy_merge-Covers sizes (λ i. false) 10 (10 ∷ 10 ∷ 10 ∷ [])
