-- ===== src/YandexClient/Requests/Counting.antt =====
-- How the requests of the client are counted.
use cluster_api_provider_yan.Prelude.{
  String, ℕ, suc, ◌+◌, ◌≡◌, ◌≢◌, refl, ◌==◌, List, [], ◌∷◌, some, arith, if◌then◌else◌, ◌⊎◌, inl,
  inr, eq_iff, eq_refl, Bool-cases,
}
use cluster_api_provider_yan.Exec.{Result, Exec, lift, pure, ◌>>=◌}
use cluster_api_provider_yan.Metrics.{
  YcMetrics, Monitored, in_world, observed, controller_label_machine, status_failed, status_success,
}
use cluster_api_provider_yan.Metrics.Counts.{
  Counts, CountsOne, CountsRequest, observed-CountsRequest, bind-CountsRequest, bind-KeepsMetrics,
  in_world-KeepsMetrics, lift-KeepsMetrics,
}
use cluster_api_provider_yan.YandexClient.Client.{yandex_api}
use cluster_api_provider_yan.YandexClient.Sdk.{Sdk, Metadata}
use cluster_api_provider_yan.YandexClient.Compute
use cluster_api_provider_yan.YandexClient.Compute.{instance_id_of}
use cluster_api_provider_yan.YandexClient.Alb
use cluster_api_provider_yan.YandexClient.Alb.{
  target_group_id_of, backend_group_id_of, first_listed, by_name, get_meta, await_created,
}
use cluster_api_provider_yan.YandexClient.Nlb
use cluster_api_provider_yan.YandexClient.Nlb.{NlbSdk}
use cluster_api_provider_yan.YandexClient.Requests.{
  Request, service_of, status_in, perform, get_by_name, get, create, delete, compute_get,
  compute_delete, compute_create, add_target, remove_target, get_target_group, target_group_get,
  target_group_delete, target_group_create, target_group_get_by_name, backend_group_get_by_name,
  backend_group_get, backend_group_delete, backend_group_create, nlb_add_target, nlb_remove_target,
  nlb_get_target_group,
}

module _ {W M Op Wrapped N G : Type 0} (om : YcMetrics M) (now : W → ℕ) (sdk : Sdk W Op Wrapped)
    (nlb : NlbSdk W Op N G) where
  module _ {count : List String → M → ℕ} (C : Counts om count) where
    read-CountsRequest :
        {A B : Type 0} (service : String) (request : Exec W A) (read : A → Exec W B)
        → CountsRequest count service request
            (observed om now service request >>= λ a. in_world (read a))
    read-CountsRequest service request read =
        bind-CountsRequest _ (λ a. in_world-KeepsMetrics (read a))
          (observed-CountsRequest C now service request)

    id-CountsRequest :
        (service : String) (request : Exec W Op) (id_of : Metadata → Result String)
        → CountsRequest count service request (
            observed om now service request >>= λ op.
            in_world (get_meta sdk op) >>= λ meta. lift (id_of meta))
    id-CountsRequest service request id_of =
        bind-CountsRequest _
          (λ op.
            bind-KeepsMetrics _ (λ meta. lift-KeepsMetrics (id_of meta))
              (in_world-KeepsMetrics (get_meta sdk op)))
          (observed-CountsRequest C now service request)

    -- Every operation of `YandexClient` adds one to exactly one counter of requests: the one with the
    -- label of the service that the operation goes to and with the outcome of its first request,
    -- failed exactly where the API answered that request with an error, whatever becomes of the
    -- answer afterwards. No other counter changes. The request is taken not to panic.
    pub perform-CountsOne :
        (req : Request N) (s : Monitored W M) (status : String)
        → status_in sdk nlb req s.world ≡ some status
        → CountsOne count
            (controller_label_machine ∷ service_of req ∷ status ∷ [])
            s.metrics
            (perform (yandex_api om now sdk nlb) req s).metrics
    unfolding service_of status_in perform Compute.compute_get Compute.compute_create
        Compute.compute_delete Alb.alb_add_target Alb.alb_remove_target Alb.alb_get_target_group
        Alb.alb_target_group_get Alb.alb_target_group_delete Alb.alb_target_group_create
        Alb.alb_target_group_get_by_name Alb.alb_backend_group_get_by_name Alb.alb_get_by_name
        Alb.alb_backend_group_get Alb.alb_backend_group_delete Alb.alb_backend_group_create
        Alb.alb_create Alb.alb_get Alb.alb_delete Nlb.nlb_add_target Nlb.nlb_remove_target
        Nlb.nlb_get_target_group
    perform-CountsOne (compute_get id) = (observed-CountsRequest C now _ (sdk.instance_get id)).once
    perform-CountsOne (compute_delete id) =
        (read-CountsRequest _ (sdk.instance_delete id) (λ _. pure tt)).once
    perform-CountsOne (compute_create req) =
        (bind-CountsRequest _
          (λ op.
            bind-KeepsMetrics _
              (λ ci.
                bind-KeepsMetrics _ (λ meta. lift-KeepsMetrics (instance_id_of meta))
                  (lift-KeepsMetrics (sdk.metadata ci)))
              (in_world-KeepsMetrics (sdk.wrap_operation op)))
          (observed-CountsRequest C now _ (sdk.instance_create req))).once
    perform-CountsOne (add_target req) =
        (observed-CountsRequest C now _ (sdk.target_group_add_targets req)).once
    perform-CountsOne (remove_target req) =
        (observed-CountsRequest C now _ (sdk.target_group_remove_targets req)).once
    perform-CountsOne (get_target_group id) =
        (observed-CountsRequest C now _ (sdk.target_group_get id)).once
    perform-CountsOne (target_group_get id) =
        (observed-CountsRequest C now _ (sdk.target_group_get id)).once
    perform-CountsOne (target_group_delete id) =
        (read-CountsRequest _ (sdk.target_group_delete id) (λ _. pure tt)).once
    perform-CountsOne (target_group_create req) =
        (id-CountsRequest _ (sdk.target_group_create req) target_group_id_of).once
    perform-CountsOne (target_group_get_by_name folder name) =
        (read-CountsRequest _ (sdk.target_group_list (by_name sdk folder name))
          (λ found. pure (first_listed found))).once
    perform-CountsOne (backend_group_get_by_name folder name) =
        (read-CountsRequest _ (sdk.backend_group_list (by_name sdk folder name))
          (λ found. pure (first_listed found))).once
    perform-CountsOne (get_by_name folder name) =
        (read-CountsRequest _ (sdk.load_balancer_list (by_name sdk folder name))
          (λ found. pure (first_listed found))).once
    perform-CountsOne (backend_group_get id) =
        (observed-CountsRequest C now _ (sdk.backend_group_get id)).once
    perform-CountsOne (backend_group_delete id) =
        (read-CountsRequest _ (sdk.backend_group_delete id) (λ _. pure tt)).once
    perform-CountsOne (backend_group_create req) =
        (id-CountsRequest _ (sdk.backend_group_create req) backend_group_id_of).once
    perform-CountsOne (create req) =
        (read-CountsRequest _ (sdk.load_balancer_create req) (await_created sdk)).once
    perform-CountsOne (get id) = (observed-CountsRequest C now _ (sdk.load_balancer_get id)).once
    perform-CountsOne (delete id) =
        (read-CountsRequest _ (sdk.load_balancer_delete id) (λ _. pure tt)).once
    perform-CountsOne (nlb_add_target req) =
        (observed-CountsRequest C now _ (nlb.add_targets req)).once
    perform-CountsOne (nlb_remove_target req) =
        (observed-CountsRequest C now _ (nlb.remove_targets req)).once
    perform-CountsOne (nlb_get_target_group id) = (observed-CountsRequest C now _ (nlb.get id)).once

  abbrev pub perform_all : List (Request N) → Monitored W M → Monitored W M
  perform_all [] s = s
  perform_all (req ∷ reqs) s = perform_all reqs (perform (yandex_api om now sdk nlb) req s)

abbrev pub sent_to : {N : Type 0} → String → List (Request N) → ℕ
sent_to service [] = 0
sent_to service (req ∷ reqs) =
    let rest = sent_to service reqs in if service_of req == service then suc rest else rest

module _ {M : Type 0} (count : List String → M → ℕ) where
  -- The requests to a service that the counters know of, with and without an error.
  abbrev pub total : String → M → ℕ
  total service m =
      count (controller_label_machine ∷ service ∷ status_failed ∷ []) m
      + count (controller_label_machine ∷ service ∷ status_success ∷ []) m

  abbrev Adds : String → M → M → Type 0
  Adds service before after = total service after ≡ suc (total service before)

  abbrev One : String → String → M → M → Type 0
  One service status before after =
      CountsOne count (controller_label_machine ∷ service ∷ status ∷ []) before after

  failed-Adds :
      (service : String) (before after : M)
      → One service status_failed before after
      → Adds service before after
  failed-Adds service before after (up, others) =
      let other = others (controller_label_machine ∷ service ∷ status_success ∷ []) (λ e. cc (e)) in
      ground (arith, up, other)

  success-Adds :
      (service : String) (before after : M)
      → One service status_success before after
      → Adds service before after
  success-Adds service before after (up, others) =
      let other = others (controller_label_machine ∷ service ∷ status_failed ∷ []) (λ e. cc (e)) in
      ground (arith, up, other)

  total_step :
      (service to status : String) (before after : M)
      → (status ≡ status_failed) ⊎ (status ≡ status_success)
      → CountsOne count (controller_label_machine ∷ to ∷ status ∷ []) before after
      → total service after
        ≡ (if to == service then suc (total service before) else total service before)
  total_step service to status before after h one = elim (Bool-cases (to == service)) [
    | inl same ↦ elim h [
      | inl failed ↦
          rw same
            (failed-Adds service before after (rw (← (eq_iff to service).0 same, ← failed) one))
      | inr success ↦
          rw same
            (success-Adds service before after (rw (← (eq_iff to service).0 same, ← success) one))
    ]
    | inr apart ↦
        let other : (status' : String)
            → controller_label_machine ∷ service ∷ status' ∷ []
              ≢ controller_label_machine ∷ to ∷ status ∷ [] =
          λ status' e. cc (e, apart, eq_refl service) in
        rw (apart, one.1 _ (other status_failed), one.1 _ (other status_success)) refl
  ]

module _ {W M Op Wrapped N G : Type 0} (om : YcMetrics M) (now : W → ℕ) (sdk : Sdk W Op Wrapped)
    (nlb : NlbSdk W Op N G) {count : List String → M → ℕ} (C : Counts om count)
    (answered : (req : Request N) (w : W)
      → (status_in sdk nlb req w ≡ some status_failed)
        ⊎ (status_in sdk nlb req w ≡ some status_success)) where
  perform_adds :
      (service : String) (req : Request N) (s : Monitored W M)
      → total count service (perform (yandex_api om now sdk nlb) req s).metrics ≡ (
          if service_of req == service
          then suc (total count service s.metrics)
          else total count service s.metrics)
  perform_adds service req s = elim (answered req s.world) [
    | inl e ↦
        total_step count service (service_of req) status_failed s.metrics _ (inl refl)
          (perform-CountsOne om now sdk nlb C req s status_failed e)
    | inr e ↦
        total_step count service (service_of req) status_success s.metrics _ (inr refl)
          (perform-CountsOne om now sdk nlb C req s status_success e)
  ]

  -- After any number of operations of `YandexClient`, the counters of a service, of failed and of
  -- successful requests together, have gone up by the number of the operations that go to this
  -- service, where every request comes back.
  pub total-perform_all :
      (service : String) (reqs : List (Request N)) (s : Monitored W M)
      → total count service (perform_all om now sdk nlb reqs s).metrics
        ≡ sent_to service reqs + total count service s.metrics
  total-perform_all service [] s = omega arith
  total-perform_all service (req ∷ reqs) s = ground (
    arith,
    total-perform_all service reqs (perform (yandex_api om now sdk nlb) req s),
    perform_adds service req s,
  )
