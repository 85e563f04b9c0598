-- ===== src/Prefilter.antt =====
-- orchestrator/prefilter.py: `CandidatePrefilterImpl`. The score of a chunk, a float, is of a type that is
-- a parameter, with its order. Of a chunk the model keeps what the filter reads.
pub mod Picks
pub mod Filling
pub mod Filtered
pub mod Kept
mod Tests
use thorondor.Prelude.{
  ℕ, suc, ◌+◌, ◌-◌, Bool, true, false, Option, none, some, List, [], ◌∷◌, ◌++◌, map, ◌==◌, ◌&&◌,
  ◌||◌, not, leb, ltb, if◌then◌else◌, max, length, any, String, str_eq, sort,
}

pub record Chunk : Type 0 where
  pub text : String
  pub title : String
  pub position : ℕ
  pub source_id : Option ℕ
  pub source_url : String

pub record PrefilteredChunks : Type 0 where
  pub chunks : List Chunk
  pub chunks_prefiltered : ℕ
  pub chunks_sent_to_reranker : ℕ

-- `_score` of a query and a chunk, and the order of scores
pub record Scoring (S : Type 0) : Type 0 where
  pub score : String → Chunk → S
  pub lt : S → S → Bool

-- (score, index, chunk)
pub record Item (S : Type 0) : Type 0 where
  pub score : S
  pub index : ℕ
  pub chunk : Chunk

pub data SourceKey : Type 0 where
  of_id : ℕ → SourceKey
  of_url : String → SourceKey

abbrev key_of : Option ℕ → String → SourceKey
key_of (some id) url = of_id id
key_of none url = of_url url

-- `_source_key`
abbrev pub source_key : Chunk → SourceKey
source_key c = key_of c.source_id c.source_url

abbrev pub same_key : SourceKey → SourceKey → Bool
same_key (of_id a) (of_id b) = a == b
same_key (of_id a) (of_url v) = false
same_key (of_url u) (of_id b) = false
same_key (of_url u) (of_url v) = str_eq u v

module _ {S : Type 0} (scoring : Scoring S) where
  -- The order of (-score, index)
  abbrev pub before : Item S → Item S → Bool
  before a b = scoring.lt b.score a.score || not (scoring.lt a.score b.score) && ltb a.index b.index

  abbrev pub score_from : String → ℕ → List Chunk → List (Item S)
  score_from query i [] = []
  score_from query i (c ∷ rest) =
      record { score = scoring.score query c; index = i; chunk = c } ∷ score_from query (i + 1) rest

  abbrev pub has_source : SourceKey → List (Item S) → Bool
  has_source key items = any (λ i. same_key (source_key i.chunk) key) items

  -- The values of `best_by_source`, whose keys are their sources.
  unfoldable pub best_by_source : List (Item S) → List (Item S) → List (Item S)
  best_by_source [] best = best
  best_by_source (i ∷ rest) best =
      best_by_source rest (if has_source (source_key i.chunk) best then best else best ++ i ∷ [])

  abbrev pub is_selected : ℕ → List (Item S) → Bool
  is_selected index selected = any (λ i. i.index == index) selected

  -- The first loop over the candidates; `selected_indexes` is read off the selected ones.
  unfoldable pub take_sources : ℕ → List (Item S) → List (Item S) → List (Item S)
  take_sources max_candidates [] selected = selected
  take_sources max_candidates (i ∷ rest) selected =
      let others = take_sources max_candidates rest (selected ++ i ∷ []) in
      if leb max_candidates (length selected) then selected else others

  -- The second loop.
  unfoldable pub fill_up : ℕ → List (Item S) → List (Item S) → List (Item S)
  fill_up max_candidates [] selected = selected
  fill_up max_candidates (i ∷ rest) selected =
      let others =
        fill_up max_candidates rest
          (if is_selected i.index selected then selected else selected ++ i ∷ []) in
      if leb max_candidates (length selected) then selected else others

  -- The selected items, in their order, where there are more chunks than candidates.
  unfoldable pub select : ℕ → List (Item S) → List (Item S)
  unfolding best_by_source take_sources fill_up
  select max_candidates items =
      let scored = sort before items in
      let sources = sort before (best_by_source scored []) in
      sort before (fill_up max_candidates scored (take_sources max_candidates sources []))

  unfoldable pub filter : ℕ → String → List Chunk → PrefilteredChunks
  unfolding select
  filter max_candidates query chunks =
      let most = max 1 max_candidates in
      let filtered = map (λ i. i.chunk) (select most (score_from query 0 chunks)) in
      if leb (length chunks) most
      then record {
        chunks = chunks;
        chunks_prefiltered = 0;
        chunks_sent_to_reranker = length chunks;
      }
      else record {
        chunks = filtered;
        chunks_prefiltered = length chunks - length filtered;
        chunks_sent_to_reranker = length filtered;
      }
