-- ===== src/Prefilter/Tests.antt =====
-- orchestrator/prefilter.py: three chunks of two sources, of which two are kept, with positions as scores.
use thorondor.Prelude.{ℕ, ◌+◌, some, List, [], ◌∷◌, ◌≡◌, ◌⊎◌, refl, ltb, min, max, length}
use thorondor.Prefilter.{Chunk, Scoring, filter}
use thorondor.Prefilter.Kept.{
  filter-counts, filter-IsPick, filter-sources, IsPick, KeepsSources, IsSpread,
}

abbrev chunk : ℕ → ℕ → Chunk
chunk position source = record {
  text = "text";
  title = "title";
  position = position;
  source_id = some source;
  source_url = "https://example.org/";
}

abbrev scoring : Scoring ℕ
scoring = record { score = λ query c. c.position; lt = ltb }

abbrev chunks : List Chunk
chunks = chunk 9 1 ∷ chunk 8 1 ∷ chunk 1 2 ∷ []

-- The second chunk has a higher score than the third, whose source is kept all the same.
filter_run : (filter scoring 2 "query" chunks).chunks ≡ chunk 9 1 ∷ chunk 1 2 ∷ []
unfolding filter
filter_run = refl

filter-counts_example :
    ((filter scoring 2 "query" chunks).chunks_sent_to_reranker ≡ min (length chunks) (max 1 2))
    × (length (filter scoring 2 "query" chunks).chunks
        ≡ (filter scoring 2 "query" chunks).chunks_sent_to_reranker)
    × ((filter scoring 2 "query" chunks).chunks_prefiltered
          + (filter scoring 2 "query" chunks).chunks_sent_to_reranker
        ≡ length chunks)
filter-counts_example = filter-counts scoring 2 "query" chunks

filter-IsPick_example : IsPick scoring chunks (filter scoring 2 "query" chunks).chunks
filter-IsPick_example = filter-IsPick scoring 2 "query" chunks

filter-sources_example :
    KeepsSources chunks (filter scoring 2 "query" chunks).chunks
    ⊎ IsSpread (filter scoring 2 "query" chunks).chunks
filter-sources_example = filter-sources scoring 2 "query" chunks
