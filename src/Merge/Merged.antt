-- ===== src/Merge/Merged.antt =====
-- orchestrator/merge.py: what `merge_dedup` makes of the results of all sets.
use thorondor.Prelude.{◌≤◌, true, List, ◌≡◌, any, count, All, String}
use thorondor.Merge.{DiscoveryContribution, DiscoveryResult, Names, same_contribution}
use thorondor.Merge.Highest.{IsHighest}
use thorondor.Merge.Kinds.{IsAmong, covers}
use thorondor.Merge.Offers.{offered}

module _ {S : Type 0} (n : Names S) where
  -- A merged result, by the results of all sets with their subqueries.
  pub record IsMerged (results : List (DiscoveryResult S × String)) (m : DiscoveryResult S)
      : Type 0 where
    -- The first of the URL with the highest score, but for its contributions.
    pub source :
        (r : DiscoveryResult S) × IsHighest n (n.normalize_url m.url) results r
        × (m ≡ record r { contributions = m.contributions })
    -- Each contribution is one that a result of the URL offers.
    pub known : All (λ c. IsAmong c (offered n (n.normalize_url m.url) results)) m.contributions
    -- For each that is offered there is one of its kind that is not lower.
    pub complete :
        All
          (λ x. any (covers n x) m.contributions ≡ true)
          (offered n (n.normalize_url m.url) results)
    -- No kind is there twice.
    pub once : (x : DiscoveryContribution S) → count (same_contribution n x) m.contributions ≤ 1
