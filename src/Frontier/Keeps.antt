-- ===== src/Frontier/Keeps.antt =====
-- The shape of one frontier record, and the changes of a record that keep it.
use thorondor.Prelude.{◌≤◌, String, ◌≡◌, ◌⊎◌, inl, inr, refl, none, some, List, [], ◌∷◌, arith}
use thorondor.Frontier.{
  UrlPolicy, FrontierRecord, CrawlState, discovered, admitted, queued, fetched, filtered, failed,
  cancelled, Discovery, set_fetched, set_failed, set_cancelled, merge_discovery,
}
use thorondor.Frontier.Ops.{cancel_waiting, absorb}

-- The histories of a record that was admitted: it waits, or it has ended, once.
abbrev pub IsAdmittedPath : List CrawlState → Type 0
IsAdmittedPath l =
    (l ≡ discovered ∷ admitted ∷ queued ∷ [])
    ⊎ (l ≡ discovered ∷ admitted ∷ queued ∷ fetched ∷ [])
    ⊎ (l ≡ discovered ∷ admitted ∷ queued ∷ failed ∷ [])
    ⊎ (l ≡ discovered ∷ admitted ∷ queued ∷ cancelled ∷ [])

abbrev pub IsFilteredPath : List CrawlState → Type 0
IsFilteredPath l = l ≡ discovered ∷ filtered ∷ []

module _ (p : UrlPolicy) where
  -- An admitted record has a history of the first kind, a URL that `normalize` returned, and is in
  -- the policy's scope.
  pub record IsAdmitted (r : FrontierRecord) : Type 0 where
    pub path : IsAdmittedPath r.states
    pub normal : (c : String) × (p.normalize c ≡ some r.url)
    pub in_scope : p.rejection_reason r.url r.depth ≡ none

  abbrev pub IsRecord : FrontierRecord → Type 0
  IsRecord r = IsFilteredPath r.states ⊎ IsAdmitted r

  -- A change that keeps the URL, the number and the kind of a record.
  pub record Keeps (change : FrontierRecord → FrontierRecord) : Type 0 where
    pub url : (r : FrontierRecord) → (change r).url ≡ r.url
    pub order : (r : FrontierRecord) → (change r).order ≡ r.order
    pub depth : (r : FrontierRecord) → (change r).depth ≤ r.depth
    pub stays_filtered :
        (r : FrontierRecord) → IsFilteredPath r.states → IsFilteredPath (change r).states
    pub stays_admitted :
        (r : FrontierRecord) → IsAdmittedPath r.states → IsAdmittedPath (change r).states

  pub set_fetched-Keeps : Keeps set_fetched
  unfolding set_fetched
  set_fetched-Keeps = record {
    url = λ r. ground arith;
    order = λ r. ground arith;
    depth = λ r. ground arith;
    stays_filtered = λ r h. ground arith;
    stays_admitted = λ r h. ground arith;
  }

  pub set_failed-Keeps : (why : String) → Keeps (set_failed why)
  unfolding set_failed
  set_failed-Keeps why = record {
    url = λ r. ground arith;
    order = λ r. ground arith;
    depth = λ r. ground arith;
    stays_filtered = λ r h. ground arith;
    stays_admitted = λ r h. ground arith;
  }

  pub set_cancelled-Keeps : (why : String) → Keeps (set_cancelled why)
  unfolding set_cancelled
  set_cancelled-Keeps why = record {
    url = λ r. ground arith;
    order = λ r. ground arith;
    depth = λ r. ground arith;
    stays_filtered = λ r h. ground arith;
    stays_admitted = λ r h. ground arith;
  }

  pub cancel_waiting-Keeps : Keeps cancel_waiting
  unfolding cancel_waiting
  cancel_waiting-Keeps = record {
    url = λ r. ground arith;
    order = λ r. ground arith;
    depth = λ r. ground arith;
    stays_filtered = λ r h. ground arith;
    stays_admitted = λ r h. ground arith;
  }

  pub merge_discovery-Keeps : (d : Discovery) → Keeps (merge_discovery d)
  unfolding merge_discovery
  merge_discovery-Keeps d = record {
    url = λ r. refl;
    order = λ r. refl;
    depth = λ r. omega arith;
    stays_filtered = λ r h. h;
    stays_admitted = λ r h. h;
  }

  pub absorb-Keeps : (from : FrontierRecord) → Keeps (absorb from)
  unfolding absorb
  absorb-Keeps from = record {
    url = λ r. refl;
    order = λ r. refl;
    depth = λ r. omega arith;
    stays_filtered = λ r h. h;
    stays_admitted = λ r h. h;
  }

  module _ {change : FrontierRecord → FrontierRecord} (k : Keeps change) (r : FrontierRecord) where
    pub Keeps-IsAdmitted : IsAdmitted r → IsAdmitted (change r)
    Keeps-IsAdmitted a = record {
      path = k.stays_admitted r a.path;
      normal = (a.normal.0, rw k.url a.normal.1);
      in_scope = rw k.url (p.scope_mono r.url (change r).depth r.depth (k.depth r) a.in_scope);
    }

    pub Keeps-IsRecord : IsRecord r → IsRecord (change r)
    Keeps-IsRecord (inl f) = inl (k.stays_filtered r f)
    Keeps-IsRecord (inr a) = inr (Keeps-IsAdmitted a)

    -- A filtered record is not admitted by a change.
    pub IsAdmitted-change : IsRecord r → IsAdmitted (change r) → IsAdmitted r
    IsAdmitted-change (inl f) a = absurd (two_paths (k.stays_filtered r f) a.path)
      where
        two_paths : {l : List CrawlState} → IsFilteredPath l → IsAdmittedPath l → ⊥
        two_paths h g = ground arith
    IsAdmitted-change (inr a) _ = a
