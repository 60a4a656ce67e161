-- ===== src/Controllers/ClusterReconciler/Quiet.antt =====
-- Which calls the reconciliation of a cluster makes, at the state of the controller.
pub mod Operations
pub mod Request
use cluster_api_provider_yan.Prelude.{String, Bool, true, false, ◌≡◌, refl, ap, ◌∙◌}
use cluster_api_provider_yan.Prelude.Int.{pos}
use cluster_api_provider_yan.Exec.{Exec, modify}
use cluster_api_provider_yan.Api.Cluster.{YandexCluster, YandexClusterSpec}
use cluster_api_provider_yan.Api.Conditions.{Mark}
use cluster_api_provider_yan.Cloud.Recording.{
  Call, Recorded, create_instance, delete_instance, add_target_call, remove_target_call,
  create_target_group, delete_target_group, create_backend_group, delete_backend_group,
  create_balancer, delete_balancer, register_target, deregister_target, patch_cluster_call,
  patch_machine_call,
}
use cluster_api_provider_yan.Cloud.Quiet.{Makes, MakesOnly, modify-Makes}
use cluster_api_provider_yan.Kube.{Cluster}
use cluster_api_provider_yan.Scope.Cluster.{ClusterScope, ClusterState, in_scope}
use cluster_api_provider_yan.LoadBalancer.Alb.Creation.{mark}

-- What the endpoint is left out of.
abbrev pub without_endpoint : YandexClusterSpec → YandexClusterSpec
without_endpoint spec = record spec { control_plane_endpoint = record { host = ""; port = pos 0 } }

-- The specification but for its endpoint is the one.
unfoldable pub KeepsSpec : YandexClusterSpec → YandexCluster → Type 0
KeepsSpec spec yc = without_endpoint yc.spec ≡ without_endpoint spec

-- What may be asked for a cluster with the specification: the creation of the parts of its load
-- balancer, in its folder, where the cluster is not deleted, their deletion where it is, and patches
-- of the cluster that keep the specification but for the endpoint. Nothing is asked of instances, of
-- targets or of a machine.
unfoldable pub Permitted : (spec : YandexClusterSpec) (deleted : Bool) → Call → Type 0
Permitted spec deleted (create_instance req) = ⊥
Permitted spec deleted (delete_instance id) = ⊥
Permitted spec deleted (add_target_call req) = ⊥
Permitted spec deleted (remove_target_call req) = ⊥
Permitted spec deleted (create_target_group req) =
    (req.folder_id ≡ spec.folder_id) × (deleted ≡ false)
Permitted spec deleted (delete_target_group id) = deleted ≡ true
Permitted spec deleted (create_backend_group req) =
    (req.folder_id ≡ spec.folder_id) × (deleted ≡ false)
Permitted spec deleted (delete_backend_group id) = deleted ≡ true
Permitted spec deleted (create_balancer req) = (req.folder_id ≡ spec.folder_id) × (deleted ≡ false)
Permitted spec deleted (delete_balancer id) = deleted ≡ true
Permitted spec deleted (register_target addr subnet) = ⊥
Permitted spec deleted (deregister_target addr subnet) = ⊥
Permitted spec deleted (patch_cluster_call yc) = KeepsSpec spec yc
Permitted spec deleted (patch_machine_call ym) = ⊥

pub folder_kept :
    (spec : YandexClusterSpec) (yc : YandexCluster)
    → KeepsSpec spec yc
    → yc.spec.folder_id ≡ spec.folder_id
unfolding KeepsSpec
folder_kept spec yc h = ap (λ (spec : YandexClusterSpec). spec.folder_id) h

module _ {W : Type 0} (spec : YandexClusterSpec) (P : Call → Type 0) where
  -- The specification is kept but for its endpoint, and only calls of the kind are made.
  abbrev pub Keeping : {A : Type 0} → Exec (ClusterState (Recorded W)) A → Type 0
  Keeping =
      Makes (λ (s : ClusterState (Recorded W)). s.world.calls)
        (λ s. KeepsSpec spec s.yandex_cluster) P

module _ {W : Type 0} (spec : YandexClusterSpec) {P : Call → Type 0} where
  -- A call that reads the scope and changes the world alone.
  pub in_scope-Keeping :
      {A : Type 0} (cluster : Cluster) {f : ClusterScope → Exec (Recorded W) A}
      → ((c : ClusterScope) → KeepsSpec spec c.yandex_cluster → MakesOnly P (f c))
      → Keeping spec P (in_scope cluster f)
  in_scope-Keeping cluster {f} h = record {
    only = λ s k. (h (scope s) k).only s.world tt;
    keeps = λ s k. k;
  }
    where
      scope : ClusterState (Recorded W) → ClusterScope
      scope s = record { cluster = cluster; yandex_cluster = s.yandex_cluster }

  -- A change of the cluster beside its specification, or of its endpoint.
  pub modify-Keeping :
      (change : ClusterState (Recorded W) → ClusterState (Recorded W))
      → ((s : ClusterState (Recorded W)) → (change s).world ≡ s.world)
      → ((s : ClusterState (Recorded W))
          → without_endpoint (change s).yandex_cluster.spec
            ≡ without_endpoint s.yandex_cluster.spec)
      → Keeping spec P (modify change)
  unfolding KeepsSpec
  modify-Keeping change same kept =
      modify-Makes change (λ s. ap (λ (r : Recorded W). r.calls) (same s)) (λ s k. kept s ∙ k)

  pub marked : (m : Mark) → Keeping {W = W} spec P (modify (mark m))
  marked m = modify-Keeping (mark m) (λ s. refl) (λ s. refl)
