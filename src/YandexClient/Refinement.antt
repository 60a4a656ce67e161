-- ===== src/YandexClient/Refinement.antt =====
-- The client without its metrics, and that the client refines it.
use cluster_api_provider_yan.Prelude.{String, ℕ}
use cluster_api_provider_yan.Exec.{Result, Exec, pure, lift, ◌>>=◌, ◌>>◌}
use cluster_api_provider_yan.Cloud.{Client}
use cluster_api_provider_yan.Cloud.Refinement.{Refines, RefinesClient, bind-Refines, lift-Refines}
use cluster_api_provider_yan.Metrics.{YcMetrics, world_of}
use cluster_api_provider_yan.Metrics.Transparency.{TakesLabels, observed-Refines, in_world-Refines}
use cluster_api_provider_yan.YandexClient.Sdk.{Sdk, Metadata}
use cluster_api_provider_yan.YandexClient.Compute.{
  compute_get, compute_create, compute_delete, instance_id_of,
}
use cluster_api_provider_yan.YandexClient.Alb.{
  alb_add_target, alb_remove_target, alb_target_group_create, alb_target_group_delete,
  alb_target_group_get_by_name, alb_backend_group_create, alb_backend_group_delete,
  alb_backend_group_get_by_name, alb_create, alb_delete, alb_get_by_name, target_group_id_of,
  backend_group_id_of, first_listed, by_name, get_meta, await_created,
}
use cluster_api_provider_yan.YandexClient.Client.{yandex_client}
use cluster_api_provider_yan.Metrics.{observed, in_world}

-- The requests with what is read of their answers, and no metrics.
module _ {W Op Wrapped : Type 0} (sdk : Sdk W Op Wrapped) where
  abbrev pub direct_client : Client W
  direct_client = record {
    compute_get = sdk.instance_get;
    compute_create = λ req. do
      op ← sdk.instance_create req
      ci ← sdk.wrap_operation op
      meta ← lift (sdk.metadata ci)
      lift (instance_id_of meta);
    compute_delete = λ id. sdk.instance_delete id >> pure tt;
    alb_add_target = λ req. sdk.target_group_add_targets req >> pure tt;
    alb_remove_target = λ req. sdk.target_group_remove_targets req >> pure tt;
    alb_target_group_create = λ req. do
      op ← sdk.target_group_create req
      meta ← get_meta sdk op
      lift (target_group_id_of meta);
    alb_target_group_delete = λ id. sdk.target_group_delete id >> pure tt;
    alb_target_group_get_by_name = λ folder name.
        sdk.target_group_list (by_name sdk folder name) >>= λ found. pure (first_listed found);
    alb_backend_group_create = λ req. do
      op ← sdk.backend_group_create req
      meta ← get_meta sdk op
      lift (backend_group_id_of meta);
    alb_backend_group_delete = λ id. sdk.backend_group_delete id >> pure tt;
    alb_backend_group_get_by_name = λ folder name.
        sdk.backend_group_list (by_name sdk folder name) >>= λ found. pure (first_listed found);
    alb_create = λ req. sdk.load_balancer_create req >>= await_created sdk;
    alb_delete = λ id. sdk.load_balancer_delete id >> pure tt;
    alb_get_by_name = λ folder name.
        sdk.load_balancer_list (by_name sdk folder name) >>= λ found. pure (first_listed found);
  }

module _ {W M Op Wrapped : Type 0} (om : YcMetrics M) (now : W → ℕ) (T : TakesLabels om)
    (sdk : Sdk W Op Wrapped) where
  answered-Refines :
      {A B : Type 0} (service : String) (request : Exec W A) (read : A → Exec W B)
      → Refines world_of
          (observed om now service request >>= λ a. in_world (read a))
          (request >>= read)
  answered-Refines service request read =
      bind-Refines world_of (λ a. in_world-Refines (read a))
        (observed-Refines om now T service request)

  identified-Refines :
      (service : String) (request : Exec W Op) (id_of : Metadata → Result String)
      → Refines world_of
          (observed om now service request >>= λ op.
            in_world (get_meta sdk op) >>= λ meta. lift (id_of meta))
          (request >>= λ op. get_meta sdk op >>= λ meta. lift (id_of meta))
  identified-Refines service request id_of =
      bind-Refines world_of
        (λ op.
          bind-Refines world_of (λ meta. lift-Refines world_of (id_of meta))
            (in_world-Refines (get_meta sdk op)))
        (observed-Refines om now T service request)

  -- `YandexClient` gives the results of the requests themselves and does to the cloud what they do:
  -- its metrics change neither, where Prometheus takes the labels of its vectors.
  pub yandex_client-Refines : RefinesClient world_of (yandex_client om now sdk) (direct_client sdk)
  unfolding compute_get compute_create compute_delete alb_add_target alb_remove_target
      alb_target_group_create alb_target_group_delete alb_target_group_get_by_name
      alb_backend_group_create alb_backend_group_delete alb_backend_group_get_by_name alb_create
      alb_delete alb_get_by_name
  yandex_client-Refines = record {
    compute_get = λ id. observed-Refines om now T _ (sdk.instance_get id);
    compute_create = λ req.
        bind-Refines world_of
          (λ op.
            bind-Refines world_of
              (λ ci.
                bind-Refines world_of (λ meta. lift-Refines world_of (instance_id_of meta))
                  (lift-Refines world_of (sdk.metadata ci)))
              (in_world-Refines (sdk.wrap_operation op)))
          (observed-Refines om now T _ (sdk.instance_create req));
    compute_delete = λ id. answered-Refines _ (sdk.instance_delete id) (λ _. pure tt);
    alb_add_target = λ req. answered-Refines _ (sdk.target_group_add_targets req) (λ _. pure tt);
    alb_remove_target =
        λ req. answered-Refines _ (sdk.target_group_remove_targets req) (λ _. pure tt);
    alb_target_group_create =
        λ req. identified-Refines _ (sdk.target_group_create req) target_group_id_of;
    alb_target_group_delete = λ id. answered-Refines _ (sdk.target_group_delete id) (λ _. pure tt);
    alb_target_group_get_by_name = λ folder name.
        answered-Refines _ (sdk.target_group_list (by_name sdk folder name))
          (λ found. pure (first_listed found));
    alb_backend_group_create =
        λ req. identified-Refines _ (sdk.backend_group_create req) backend_group_id_of;
    alb_backend_group_delete =
        λ id. answered-Refines _ (sdk.backend_group_delete id) (λ _. pure tt);
    alb_backend_group_get_by_name = λ folder name.
        answered-Refines _ (sdk.backend_group_list (by_name sdk folder name))
          (λ found. pure (first_listed found));
    alb_create = λ req. answered-Refines _ (sdk.load_balancer_create req) (await_created sdk);
    alb_delete = λ id. answered-Refines _ (sdk.load_balancer_delete id) (λ _. pure tt);
    alb_get_by_name = λ folder name.
        answered-Refines _ (sdk.load_balancer_list (by_name sdk folder name))
          (λ found. pure (first_listed found));
  }
