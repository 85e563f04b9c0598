-- ===== src/Assembly/Tests.antt =====
-- orchestrator/assembly.py: two chunks of one page, of which the second is cut.
use thorondor.Prelude.{
  ℕ, ◌==◌, ltb, true, none, some, List, [], ◌∷◌, ◌≡◌, refl, get_elem?, map, All,
}
use thorondor.Assembly.{ScoredChunk, AssembledCitation, Texts, assemble}
use thorondor.Assembly.Budget.{IsWithin, assemble-IsWithin, CountsTokens, assemble-CountsTokens}
use thorondor.Assembly.Citations.{IsCited}
use thorondor.Assembly.Numbers.{assemble-IsCited}

abbrev texts : Texts ℕ
texts = record {
  is_space = λ c. c == 32;
  normalize_url = λ url. url;
  evidence_id_for = λ url sha start end. "evidence";
  lt = ltb;
}

-- "ab c d"
abbrev sample : ℕ → ScoredChunk ℕ
sample score = record {
  chunk = record {
    text = 97 ∷ 98 ∷ 32 ∷ 99 ∷ 32 ∷ 100 ∷ [];
    token_count = 3;
    source_url = "https://example.org/";
    title = "title";
    source_id = none;
    start_index = some 10;
    end_index = some 16;
    verbatim = true;
    document_id = some "doc";
    evidence_id = some "evidence";
    final_url = some "https://example.org/";
    cleaned_markdown_sha256 = some "sha";
    section_heading = none;
    evidence_metadata = none;
  };
  score = score;
  score_components = [];
}

abbrev scored : List (ScoredChunk ℕ)
scored = sample 1 ∷ sample 2 ∷ []

-- The second passage ends after two tokens.
texts_run :
    map (λ p. p.text) (assemble texts 5 none scored).passages
    ≡ (97 ∷ 98 ∷ 32 ∷ 99 ∷ 32 ∷ 100 ∷ []) ∷ (97 ∷ 98 ∷ 32 ∷ 99 ∷ []) ∷ []
unfolding assemble
texts_run = refl

ids_run : map (λ p. p.citation_id) (assemble texts 5 none scored).passages ≡ 1 ∷ 1 ∷ []
unfolding assemble
ids_run = refl

abbrev citation : AssembledCitation
citation = record {
  id = 1;
  url = "https://example.org/";
  title = "title";
  source_id = none;
  document_id = some "doc";
  evidence_metadata = none;
  evidence_spans =
      record {
        start_index = some 10;
        end_index = some 16;
        verbatim = true;
        evidence_id = some "evidence";
        section_heading = none;
      }
      ∷ record {
        start_index = some 10;
        end_index = some 14;
        verbatim = true;
        evidence_id = some "evidence";
        section_heading = none;
      }
      ∷ [];
}

citation_run : get_elem? (assemble texts 5 none scored).citations 0 ≡ some citation
unfolding assemble
citation_run = refl

assemble-IsWithin_example : IsWithin texts 5 (some 4) (assemble texts 5 (some 4) scored)
assemble-IsWithin_example = assemble-IsWithin texts 5 (some 4) scored

assemble-CountsTokens_example : All (CountsTokens texts) (assemble texts 5 none scored).passages
assemble-CountsTokens_example = assemble-CountsTokens texts 5 none scored (refl, (refl, tt))

assemble-IsCited_example : IsCited texts (assemble texts 5 none scored)
assemble-IsCited_example = assemble-IsCited texts 5 none scored
