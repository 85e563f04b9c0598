-- ===== src/Assembly.antt =====
-- orchestrator/assembly.py: `ResultAssemblerImpl`. Texts that are cut are lists of code points. What a
-- regular expression calls a space, `normalize_url`, `evidence_id_for` and the order of the scores are
-- parameters; of a chunk the model keeps what is read here, of an entry of its metadata the value.
pub mod Tokens
pub mod Budget
pub mod Citations
pub mod Numbers
mod Tests
use thorondor.Prelude.{
  ℕ, zero, suc, ◌+◌, ◌-◌, Bool, true, false, Option, none, some, List, [], ◌∷◌, ◌++◌, ◌==◌, ◌&&◌,
  ◌||◌, not, leb, ltb, if◌then◌else◌, is_some, length, get_elem?, take, modify, any, sort, String,
  str_eq, Dict, lookup, insert,
}

pub record Chunk : Type 0 where
  pub text : List ℕ
  pub token_count : ℕ
  pub source_url : String
  pub title : String
  pub source_id : Option ℕ
  pub start_index : Option ℕ
  pub end_index : Option ℕ
  pub verbatim : Bool
  pub document_id : Option String
  pub evidence_id : Option String
  pub final_url : Option String
  pub cleaned_markdown_sha256 : Option String
  pub section_heading : Option String
  pub evidence_metadata : Option (Dict String)

pub record ScoreComponent (S : Type 0) : Type 0 where
  pub name : String
  pub score : S
  pub strategy : String

pub record ScoredChunk (S : Type 0) : Type 0 where
  pub chunk : Chunk
  pub score : S
  pub score_components : List (ScoreComponent S)

pub record EvidenceSpan : Type 0 where
  pub start_index : Option ℕ
  pub end_index : Option ℕ
  pub verbatim : Bool
  pub evidence_id : Option String
  pub section_heading : Option String

pub record AssembledCitation : Type 0 where
  pub id : ℕ
  pub url : String
  pub title : String
  pub source_id : Option ℕ
  pub document_id : Option String
  pub evidence_metadata : Option (Dict String)
  pub evidence_spans : List EvidenceSpan

pub record AssembledPassage (S : Type 0) : Type 0 where
  pub text : List ℕ
  pub score : S
  pub token_count : ℕ
  pub citation_id : ℕ
  pub start_index : Option ℕ
  pub end_index : Option ℕ
  pub verbatim : Bool
  pub document_id : Option String
  pub evidence_id : Option String
  pub section_heading : Option String
  pub score_components : List (ScoreComponent S)

pub record Texts (S : Type 0) : Type 0 where
  pub is_space : ℕ → Bool
  pub normalize_url : String → String
  pub evidence_id_for : String → String → ℕ → ℕ → String
  pub lt : S → S → Bool

-- The locals of `assemble`
pub record Assembled (S : Type 0) : Type 0 where
  pub citation_ids : Dict ℕ
  pub citations : List AssembledCitation
  pub passages : List (AssembledPassage S)
  pub total_tokens : ℕ

abbrev same_optional : {A : Type 0} → (A → A → Bool) → Option A → Option A → Bool
same_optional same none none = true
same_optional same none (some b) = false
same_optional same (some a) none = false
same_optional same (some a) (some b) = same a b

abbrev same_flag : Bool → Bool → Bool
same_flag true b = b
same_flag false b = not b

abbrev pub same_span : EvidenceSpan → EvidenceSpan → Bool
same_span a b =
    same_optional ◌==◌ a.start_index b.start_index
    && same_optional ◌==◌ a.end_index b.end_index
    && same_flag a.verbatim b.verbatim
    && same_optional str_eq a.evidence_id b.evidence_id
    && same_optional str_eq a.section_heading b.section_heading

abbrev pub span_of : Chunk → EvidenceSpan
span_of c = record {
  start_index = c.start_index;
  end_index = c.end_index;
  verbatim = c.verbatim;
  evidence_id = c.evidence_id;
  section_heading = c.section_heading;
}

-- `_add_evidence_span`
abbrev pub add_evidence_span : Chunk → AssembledCitation → AssembledCitation
add_evidence_span c citation =
    if any (λ s. same_span s (span_of c)) citation.evidence_spans
    then citation
    else record citation { evidence_spans = citation.evidence_spans ++ span_of c ∷ [] }

abbrev title_in : String → Option String → String
title_in title none = title
title_in title (some value) = value

abbrev metadata_title : String → Option (Dict String) → String
metadata_title title none = title
metadata_title title (some metadata) = title_in title (lookup "title" metadata)

abbrev pub new_citation : ℕ → Chunk → AssembledCitation
new_citation id c = record {
  id = id;
  url = c.source_url;
  title = metadata_title c.title c.evidence_metadata;
  source_id = c.source_id;
  document_id = c.document_id;
  evidence_metadata = c.evidence_metadata;
  evidence_spans = [];
}

module _ {S : Type 0} (texts : Texts S) where
  -- Where the matches of \S+ end, from a position in the text on, inside a match or not.
  abbrev pub match_ends : Bool → ℕ → List ℕ → List ℕ
  match_ends inside i [] = if inside then i ∷ [] else []
  match_ends inside i (c ∷ rest) =
      let in_space = match_ends false (i + 1) rest in
      let in_match = match_ends true (i + 1) rest in
      if texts.is_space c then if inside then i ∷ in_space else in_space else in_match

  abbrev pub preserves_identity : Chunk → Bool
  preserves_identity c =
      c.verbatim
      && is_some c.document_id
      && is_some c.final_url
      && is_some c.cleaned_markdown_sha256
      && is_some c.start_index

  abbrev cut_end : ℕ → Option ℕ → Option ℕ
  cut_end relative_end none = none
  cut_end relative_end (some start) = some (start + relative_end)

  abbrev cut_id : Option String → Option String → Option ℕ → Option ℕ → Option String
  cut_id (some url) (some sha) (some start) (some end) =
      some (texts.evidence_id_for url sha start end)
  cut_id url sha start end = none

  -- `_truncate`
  unfoldable pub cut : ℕ → ℕ → Chunk → Chunk
  cut relative_end token_count c =
      let preserved = preserves_identity c in
      let end_index = if preserved then cut_end relative_end c.start_index else none in
      record c {
        text = take relative_end c.text;
        token_count = token_count;
        start_index = if preserved then c.start_index else none;
        end_index = end_index;
        verbatim = preserved;
        evidence_id = cut_id c.final_url c.cleaned_markdown_sha256 c.start_index end_index;
      }

  abbrev cut_at : ℕ → Chunk → Option ℕ → Option Chunk
  cut_at token_budget c none = none
  cut_at token_budget c (some end) = some (cut end token_budget c)

  -- `_truncate_to_budget`, which keeps the scores as they are
  unfoldable pub truncate_to_budget : ℕ → Chunk → Option Chunk
  unfolding cut
  truncate_to_budget token_budget c =
      let ends = match_ends false 0 c.text in
      if leb c.token_count token_budget
      then some c
      else if ltb token_budget 1
      then none
      else if not (length ends == c.token_count) || ltb (length ends) token_budget
      then none
      else cut_at token_budget c (get_elem? ends (token_budget - 1))

  abbrev key_of : Option String → String → String
  key_of none url = texts.normalize_url url
  key_of (some id) url = if str_eq id "" then texts.normalize_url url else id

  -- The key of the chunk's citation.
  abbrev pub citation_key : Chunk → String
  citation_key c = key_of c.document_id c.source_url

  abbrev existing_or_new : Chunk → Assembled S → Option ℕ → ℕ × Assembled S
  existing_or_new c a (some id) = (id, a)
  existing_or_new c a none =
      let id = length a.citations + 1 in
      (
        id,
        record a {
          citation_ids = insert (citation_key c) id a.citation_ids;
          citations = a.citations ++ new_citation id c ∷ [];
        },
      )

  unfoldable pub citation_id_for : Chunk → Assembled S → ℕ × Assembled S
  unfolding lookup insert
  citation_id_for c a = existing_or_new c a (lookup (citation_key c) a.citation_ids)

  -- `_passage`
  abbrev pub passage : ScoredChunk S → Chunk → ℕ → AssembledPassage S
  passage item c citation_id = record {
    text = c.text;
    score = item.score;
    token_count = c.token_count;
    citation_id = citation_id;
    start_index = c.start_index;
    end_index = c.end_index;
    verbatim = c.verbatim;
    document_id = c.document_id;
    evidence_id = c.evidence_id;
    section_heading = c.section_heading;
    score_components = item.score_components;
  }

  -- One round of the loop, with the chunk after it was cut; without one it goes on.
  unfoldable pub add_item : ScoredChunk S → Option Chunk → Assembled S → Assembled S
  unfolding citation_id_for
  add_item item none a = a
  add_item item (some c) a =
      let (id, cited) = citation_id_for c a in
      record {
        citation_ids = cited.citation_ids;
        citations = modify (add_evidence_span c) cited.citations (id - 1);
        passages = cited.passages ++ passage item c id ∷ [];
        total_tokens = cited.total_tokens + c.token_count;
      }

  abbrev pub is_full : Option ℕ → Assembled S → Bool
  is_full none a = false
  is_full (some max_passages) a = leb max_passages (length a.passages)

  unfoldable pub assemble_loop : ℕ → Option ℕ → List (ScoredChunk S) → Assembled S → Assembled S
  unfolding add_item truncate_to_budget
  assemble_loop token_budget max_passages [] a = a
  assemble_loop token_budget max_passages (item ∷ rest) a =
      let after =
        assemble_loop token_budget max_passages rest
          (add_item item (truncate_to_budget (token_budget - a.total_tokens) item.chunk) a) in
      if is_full max_passages a then a else after

  abbrev pub nothing_assembled : Assembled S
  nothing_assembled = record { citation_ids = []; citations = []; passages = []; total_tokens = 0 }

  unfoldable pub assemble : ℕ → Option ℕ → List (ScoredChunk S) → Assembled S
  unfolding assemble_loop
  assemble token_budget max_passages scored =
      assemble_loop token_budget max_passages (sort (λ a b. texts.lt b.score a.score) scored)
        nothing_assembled
