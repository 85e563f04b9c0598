-- ===== src/Assembly/Citations.antt =====
-- orchestrator/assembly.py: the citations that `assemble` gives the passages.
use thorondor.Prelude.{
  ℕ, suc, ◌≤◌, ◌<◌, Bool, true, false, Option, none, some, List, [], ◌∷◌, ◌++◌, ◌≡◌, refl, ◌==◌,
  length, get_elem?, modify, any, any-append, get_elem?-modify, get_elem?-modify_inv,
  get_elem?-concat_left, lookup, All, Bool-cases, inl, inr, eq_refl, str_eq, String, Dict, arith,
}
use thorondor.Assembly.{
  Chunk, EvidenceSpan, AssembledCitation, AssembledPassage, Assembled, Texts, same_span, span_of,
  add_evidence_span, key_of, same_flag, same_optional,
}

abbrev pub span_in : EvidenceSpan → List EvidenceSpan → Bool
span_in span spans = any (λ s. same_span s span) spans

same_flag_refl : (b : Bool) → same_flag b b ≡ true
same_flag_refl true = refl
same_flag_refl false = refl

same_number_refl : (o : Option ℕ) → same_optional ◌==◌ o o ≡ true
same_number_refl none = refl
same_number_refl (some n) = ground arith

same_text_refl : (o : Option String) → same_optional str_eq o o ≡ true
same_text_refl none = refl
same_text_refl (some t) = eq_refl t

same_span_refl : (s : EvidenceSpan) → same_span s s ≡ true
same_span_refl s =
    rw
      (
        same_number_refl s.start_index,
        same_number_refl s.end_index,
        same_flag_refl s.verbatim,
        same_text_refl s.evidence_id,
        same_text_refl s.section_heading,
      )
      refl

-- After a span is added it is there, and so are the others; nothing else of a citation changes.
pub added_span :
    (c : Chunk) (ct : AssembledCitation)
    → span_in (span_of c) (add_evidence_span c ct).evidence_spans ≡ true
added_span c ct = elim (Bool-cases (span_in (span_of c) ct.evidence_spans)) [
  | inl e ↦ rw e e
  | inr e ↦ rw e (rw (any-append, same_span_refl (span_of c)) (ground arith))
]

pub kept_span :
    (c : Chunk) (span : EvidenceSpan) (ct : AssembledCitation)
    → span_in span ct.evidence_spans ≡ true
    → span_in span (add_evidence_span c ct).evidence_spans ≡ true
kept_span c span ct h = elim (Bool-cases (span_in (span_of c) ct.evidence_spans)) [
  | inl e ↦ rw e h
  | inr e ↦ rw e (rw (any-append, h) refl)
]

same_citation :
    (c : Chunk) (ct : AssembledCitation)
    → ((add_evidence_span c ct).id ≡ ct.id)
      × ((add_evidence_span c ct).document_id ≡ ct.document_id)
      × ((add_evidence_span c ct).url ≡ ct.url)
same_citation c ct = elim (Bool-cases (span_in (span_of c) ct.evidence_spans)) [
  | inl e ↦ rw e (refl, refl, refl)
  | inr e ↦ rw e (refl, refl, refl)
]

module _ {S : Type 0} (texts : Texts S) where
  -- The citation at a position has the next number as its id, and is found under its key.
  abbrev pub Numbered : Dict ℕ → List AssembledCitation → Type 0
  Numbered ids citations =
      (k : ℕ) (ct : AssembledCitation)
      → get_elem? citations k ≡ some ct
      → (ct.id ≡ suc k) × (lookup (key_of texts ct.document_id ct.url) ids ≡ some (suc k))

  abbrev pub Known : Dict ℕ → List AssembledCitation → Type 0
  Known ids citations =
      (key : String) (id : ℕ) → lookup key ids ≡ some id → (0 < id) × (id ≤ length citations)

  -- A passage's citation is there, and has the passage's span.
  abbrev pub HasCitation : List AssembledCitation → AssembledPassage S → Type 0
  HasCitation citations p =
      (k : ℕ) × (ct : AssembledCitation) × (p.citation_id ≡ suc k)
      × (get_elem? citations k ≡ some ct)
      × (span_in
            (record {
              start_index = p.start_index;
              end_index = p.end_index;
              verbatim = p.verbatim;
              evidence_id = p.evidence_id;
              section_heading = p.section_heading;
            })
            ct.evidence_spans
          ≡ true)

  pub record IsCited (a : Assembled S) : Type 0 where
    pub numbered : Numbered a.citation_ids a.citations
    pub known : Known a.citation_ids a.citations
    pub cited : All (HasCitation a.citations) a.passages

  pub some_inj : {A : Type 0} {a b : A} → some a ≡ some b → a ≡ b
  some_inj h = cc

  -- Spans that are added leave the citations numbered and the passages cited.
  pub modify-Numbered :
      (c : Chunk) (k : ℕ) (ids : Dict ℕ) (citations : List AssembledCitation)
      → Numbered ids citations
      → Numbered ids (modify (add_evidence_span c) citations k)
  modify-Numbered c k ids citations h j ct at =
      let (old, was, change) = get_elem?-modify_inv (add_evidence_span c) citations k j ct at in
      elim change [
        | inl same ↦ rw same (h j old was)
        | inr (here, same) ↦
            let (id, document_id, url) = same_citation c old in
            rw (same, id, document_id, url) (h j old was)
      ]

  pub modify-HasCitation :
      (c : Chunk) (k : ℕ) (citations : List AssembledCitation) (p : AssembledPassage S)
      → HasCitation citations p
      → HasCitation (modify (add_evidence_span c) citations k) p
  modify-HasCitation c k citations p (j, ct, id, at, there) =
      let (now, found, change) = get_elem?-modify (add_evidence_span c) citations k j ct at in
      (
        j,
        now,
        id,
        found,
        elim change [ inl same ↦ rw same there | inr same ↦ rw same (kept_span c _ ct there) ],
      )

  pub append-HasCitation :
      (citations : List AssembledCitation) (new : AssembledCitation) (p : AssembledPassage S)
      → HasCitation citations p
      → HasCitation (citations ++ new ∷ []) p
  append-HasCitation citations new p (j, ct, id, at, there) =
      (j, ct, id, get_elem?-concat_left citations new j ct at, there)
