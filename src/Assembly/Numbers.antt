-- ===== src/Assembly/Numbers.antt =====
-- orchestrator/assembly.py: `assemble` numbers its citations, one for each document.
use thorondor.Prelude.{
  ℕ, zero, suc, ◌+◌, ◌-◌, ◌<◌, false, Option, none, some, List, [], ◌∷◌, ◌++◌, ◌≡◌, refl, sym, ap,
  ◌∙◌, length, get_elem?, length-append, length-modify, get_elem?-modify_self, get_elem?-concat,
  get_elem?-concat_last, lookup, insert, lookup-insert, All-append, All-map, sort, Bool-cases,
  Option-cases, inl, inr, eq_iff, eq_refl, str_eq, String, Dict, arith,
}
use thorondor.Assembly.{
  Chunk, ScoredChunk, AssembledCitation, Assembled, Texts, add_evidence_span, new_citation,
  citation_key, key_of, citation_id_for, add_item, assemble, nothing_assembled,
}
use thorondor.Assembly.Budget.{assemble_loop-keeps, no_condition}
use thorondor.Assembly.Citations.{
  added_span, Numbered, Known, HasCitation, IsCited, some_inj, modify-Numbered, modify-HasCitation,
  append-HasCitation,
}

module _ {S : Type 0} (texts : Texts S) where
  get_elem?_within :
      (citations : List AssembledCitation) (k : ℕ)
      → k < length citations
      → (ct : AssembledCitation) × (get_elem? citations k ≡ some ct)
  get_elem?_within [] k lt = absurd (omega (arith, lt))
  get_elem?_within (ct ∷ rest) zero lt = (ct, refl)
  get_elem?_within (ct ∷ rest) (suc k) lt = get_elem?_within rest k (omega (arith, lt))

  -- The round for a chunk whose citation is there.
  add_known :
      (item : ScoredChunk S) (c : Chunk) (a : Assembled S) (id : ℕ)
      → lookup (citation_key texts c) a.citation_ids ≡ some id
      → IsCited texts a
      → IsCited texts (add_item texts item (some c) a)
  unfolding add_item citation_id_for
  add_known item c a id found h =
      let (positive, within) = h.known (citation_key texts c) id found in
      let position : id ≡ suc (id - 1) = omega (arith, positive) in
      let (ct, at) = get_elem?_within a.citations (id - 1) (omega (arith, positive, within)) in
      let now = get_elem?-modify_self (add_evidence_span c) a.citations (id - 1) ct at in
      rw found (record {
        numbered = modify-Numbered texts c (id - 1) a.citation_ids a.citations h.numbered;
        known = λ key j e.
            rw (length-modify (add_evidence_span c) a.citations (id - 1)) (h.known key j e);
        cited =
            All-append (HasCitation texts _) a.passages (_ ∷ [])
              (All-map a.passages (λ p. modify-HasCitation texts c (id - 1) a.citations p) h.cited)
              ((id - 1, add_evidence_span c ct, position, now, added_span c ct), tt);
      })

  other_key :
      (x y : String) (ids : Dict ℕ) (n : ℕ)
      → lookup x ids ≡ none
      → lookup y ids ≡ some n
      → str_eq x y ≡ false
  other_key x y ids n missing found = elim (Bool-cases (str_eq x y)) [
    | inl e ↦
        let same : x ≡ y = (eq_iff x y).0 e in
        let gone : lookup y ids ≡ none = rw (← same) missing in
        let no : none ≡ some n = sym gone ∙ found in absurd cc
    | inr e ↦ e
  ]

  new_key-Numbered :
      (c : Chunk) (a : Assembled S)
      → lookup (citation_key texts c) a.citation_ids ≡ none
      → IsCited texts a
      → Numbered texts
          (insert (citation_key texts c) (length a.citations + 1) a.citation_ids)
          (a.citations ++ new_citation (length a.citations + 1) c ∷ [])
  new_key-Numbered c a missing h k ct at =
      elim (get_elem?-concat a.citations (new_citation (length a.citations + 1) c) k ct at) [
        | inl old ↦
            let (id, found) = h.numbered k ct old in
            let apart : str_eq (citation_key texts c) (key_of texts ct.document_id ct.url) ≡ false =
              other_key (citation_key texts c) (key_of texts ct.document_id ct.url) a.citation_ids
                (suc k) missing found in
            (id, rw (lookup-insert, apart) found)
        | inr (last, same) ↦
            rw (same, last)
              (
                omega arith,
                rw (lookup-insert, eq_refl (citation_key texts c)) (ap some (omega arith)),
              )
      ]

  new_key-Known :
      (c : Chunk) (a : Assembled S)
      → IsCited texts a
      → Known texts
          (insert (citation_key texts c) (length a.citations + 1) a.citation_ids)
          (a.citations ++ new_citation (length a.citations + 1) c ∷ [])
  new_key-Known c a h key id e =
      let size = length-append a.citations (new_citation (length a.citations + 1) c ∷ []) in
      elim (Bool-cases (str_eq (citation_key texts c) key)) [
        | inl same ↦
            let new : length a.citations + 1 ≡ id =
              some_inj texts (rw (lookup-insert, same) at e) in
            (omega (arith, new), omega (arith, new, size))
        | inr other ↦
            let (positive, within) = h.known key id (rw (lookup-insert, other) at e) in
            (positive, omega (arith, within, size))
      ]

  -- The round for a chunk whose citation is new.
  add_new :
      (item : ScoredChunk S) (c : Chunk) (a : Assembled S)
      → lookup (citation_key texts c) a.citation_ids ≡ none
      → IsCited texts a
      → IsCited texts (add_item texts item (some c) a)
  unfolding add_item citation_id_for
  add_new item c a missing h =
      let new = new_citation (length a.citations + 1) c in
      let k = length a.citations + 1 - 1 in
      let end : k ≡ length a.citations = omega arith in
      let at : get_elem? (a.citations ++ new ∷ []) k ≡ some new =
        rw end (get_elem?-concat_last a.citations new) in
      let now = get_elem?-modify_self (add_evidence_span c) (a.citations ++ new ∷ []) k new at in
      rw missing (record {
        numbered =
            modify-Numbered texts c k _ (a.citations ++ new ∷ []) (new_key-Numbered c a missing h);
        known = λ key j e.
            rw (length-modify (add_evidence_span c) (a.citations ++ new ∷ []) k)
              (new_key-Known c a h key j e);
        cited =
            All-append (HasCitation texts _) a.passages (_ ∷ [])
              (All-map a.passages
                (λ p cited.
                  modify-HasCitation texts c k (a.citations ++ new ∷ []) p
                    (append-HasCitation texts a.citations new p cited))
                h.cited)
              ((k, add_evidence_span c new, omega arith, now, added_span c new), tt);
      })

  no_citations : Numbered texts [] []
  no_citations k ct at = absurd cc

  no_keys : Known texts [] []
  unfolding lookup
  no_keys key id e = absurd cc

  add_item-IsCited :
      (item : ScoredChunk S) (found : Option Chunk) (a : Assembled S)
      → IsCited texts a
      → IsCited texts (add_item texts item found a)
  unfolding add_item
  add_item-IsCited item none a h = h
  add_item-IsCited item (some c) a h =
      elim (Option-cases (lookup (citation_key texts c) a.citation_ids)) [
        | inl missing ↦ add_new item c a missing h
        | inr (id, found) ↦ add_known item c a id found h
      ]

  -- The citations are numbered from 1 in their order and found under their keys; and the citation that a
  -- passage names is there and has the passage's span among its evidence.
  pub assemble-IsCited :
      (token_budget : ℕ) (max_passages : Option ℕ) (scored : List (ScoredChunk S))
      → IsCited texts (assemble texts token_budget max_passages scored)
  unfolding assemble
  assemble-IsCited token_budget max_passages scored =
      assemble_loop-keeps texts (IsCited texts) (λ i. Unit) token_budget max_passages
        (λ item a room q h. add_item-IsCited item _ a h)
        (sort (λ a b. texts.lt b.score a.score) scored) (nothing_assembled texts)
        (no_condition texts (sort (λ a b. texts.lt b.score a.score) scored))
        (record { numbered = no_citations; known = no_keys; cited = tt })

  -- No two citations have the same key: neither the same document, nor, without one, the same normalised
  -- URL.
  pub assemble-distinct :
      (token_budget : ℕ) (max_passages : Option ℕ) (scored : List (ScoredChunk S)) (j k : ℕ)
      (x y : AssembledCitation)
      → get_elem? (assemble texts token_budget max_passages scored).citations j ≡ some x
      → get_elem? (assemble texts token_budget max_passages scored).citations k ≡ some y
      → key_of texts x.document_id x.url ≡ key_of texts y.document_id y.url
      → j ≡ k
  assemble-distinct token_budget max_passages scored j k x y at_j at_k same =
      let h = assemble-IsCited token_budget max_passages scored in
      let (id_x, found_x) = h.numbered j x at_j in
      let (id_y, found_y) = h.numbered k y at_k in
      let both : suc j ≡ suc k = some_inj texts (sym found_x ∙ rw same found_y) in
      omega (arith, both)
