-- ===== src/LoadBalancer/Alb/Refinement/Deletion.antt =====
-- Repeated calls of `deleteALBService` over two clients, of which one refines the other.
use cluster_api_provider_yan.Prelude.{ℕ, zero, suc, ◌≡◌, ◌∙◌, sym, ap, none, Bool, true, subst}
use cluster_api_provider_yan.Exec.{Result, ok}
use cluster_api_provider_yan.Cloud.{Client}
use cluster_api_provider_yan.Cloud.Refinement.{RefinesClient}
use cluster_api_provider_yan.Kube.{Libraries}
use cluster_api_provider_yan.Scope.Cluster.{ClusterScope}
use cluster_api_provider_yan.LoadBalancer.Alb.Deletion.{delete_alb_service}
use cluster_api_provider_yan.LoadBalancer.Alb.Deletion.Convergence.{Ends, Seen, repeated}
use cluster_api_provider_yan.LoadBalancer.Alb.Refinement.{delete_alb_service-Refines}

module _ {S W : Type 0} (view : S → W) (libs : Libraries) (detailed : Client S)
    (abstract : Client W) (c : ClusterScope) (pause : S → S) (pass : W → W) where
  -- After some number of calls over the detailed client, the next one reports the end, and nothing
  -- is left in the world that is seen.
  abbrev pub EndsWith : S → Type 0
  EndsWith s =
      (n : ℕ) × (s' : S) × (repeated libs detailed c pause n s ≡ (ok true, s'))
      × Seen libs abstract c pass (view s') none none none

module _ {S W : Type 0} (view : S → W) (libs : Libraries) {detailed : Client S}
    {abstract : Client W} (R : RefinesClient view detailed abstract) (c : ClusterScope)
    (pause : S → S) (pass : W → W) (same_pause : (s : S) → view (pause s) ≡ pass (view s)) where
  repeated_refines :
      (n : ℕ) (s : S)
      → ((repeated libs detailed c pause n s).0 ≡ (repeated libs abstract c pass n (view s)).0)
        × (view (repeated libs detailed c pause n s).1
            ≡ (repeated libs abstract c pass n (view s)).1)
  repeated_refines zero s =
      let one = delete_alb_service-Refines view libs R c in (one.same_result s, one.same_world s)
  repeated_refines (suc n) s =
      let (r, s') = delete_alb_service libs detailed c s in
      let one = delete_alb_service-Refines view libs R c in
      let (result, world) = repeated_refines n (pause s') in
      let w = same_pause s' ∙ ap pass (one.same_world s) in
      (
        result ∙ ap (λ w. (repeated libs abstract c pass n w).0) w,
        world ∙ ap (λ w. (repeated libs abstract c pass n w).1) w,
      )

  -- Where calls over the abstract client come to an end, so do as many over the detailed one.
  pub detailed-EndsWith :
      (s : S)
      → Ends libs abstract c pass (view s)
      → EndsWith view libs detailed abstract c pause pass s
  detailed-EndsWith s (n, w', done, gone) =
      let (result, world) = repeated_refines n s in
      let after = (repeated libs detailed c pause n s).1 in
      (
        n,
        after,
        ap (λ (r : Result Bool). (r, after)) (result ∙ ap (λ (p : Result Bool × W). p.0) done),
        subst (λ (w : W). Seen libs abstract c pass w none none none)
            (sym (world ∙ ap (λ (p : Result Bool × W). p.1) done)) gone,
      )
