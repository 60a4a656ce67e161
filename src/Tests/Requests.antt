-- ===== src/Tests/Requests.antt =====
-- The client of the SDK over the small cloud, with a log of increments for its metrics.
use cluster_api_provider_yan.Prelude.{
  ℕ, String, ◌==◌, ◌&&◌, ◌≡◌, refl, Bool, true, false, Option, none, some, List, [], ◌∷◌,
  if◌then◌else◌, suc, eq_iff, eq_refl, arith, Bool-cases, inl, inr, ◌+◌, ◌⊎◌,
}
use cluster_api_provider_yan.Exec.{Result, ok, err, panic, Exec}
use cluster_api_provider_yan.Exec.Errors.{library}
use cluster_api_provider_yan.Cloud.Messages.{TargetGroup}
use cluster_api_provider_yan.Cloud.Refinement.{Refines}
use cluster_api_provider_yan.Metrics.{YcMetrics, Monitored, world_of}
use cluster_api_provider_yan.Metrics.Transparency.{TakesLabels}
use cluster_api_provider_yan.Metrics.Counts.{Counts, CountsOne, outcome}
use cluster_api_provider_yan.Kube.{ObjectKey}
use cluster_api_provider_yan.Controllers.ClusterReconciler
use cluster_api_provider_yan.Controllers.MachineReconciler
use cluster_api_provider_yan.YandexClient.Reconciliation.{monitored_kube, reconcile_request-Refines}
use cluster_api_provider_yan.YandexClient.Sdk.{
  Sdk, Metadata, instance_metadata, target_group_metadata, backend_group_metadata,
  load_balancer_metadata, other_metadata,
}
use cluster_api_provider_yan.YandexClient.Nlb.{NlbSdk}
use cluster_api_provider_yan.YandexClient.Client.{yandex_client, yandex_api}
use cluster_api_provider_yan.YandexClient.Refinement.{direct_client}
use cluster_api_provider_yan.YandexClient.Requests
use cluster_api_provider_yan.YandexClient.Requests.{Request, service_of, status_in, perform}
use cluster_api_provider_yan.YandexClient.Requests.Counting.{
  perform-CountsOne, perform_all, total-perform_all, sent_to, total,
}
use cluster_api_provider_yan.Tests.Fixtures.{World, client, full_world, keys, kube, libs, marked}

-- The labels of every increment, the last one first.
abbrev pub Log : Type 0
Log = List (List String)

abbrev durations : List String → ℕ → Exec Log (Unit {0})
durations (_ ∷ _ ∷ []) d log = (ok tt, log)
durations _ d log = (panic, log)

abbrev requests : List String → Exec Log (Unit {0})
requests (a ∷ b ∷ c ∷ []) log = (ok tt, (a ∷ b ∷ c ∷ []) ∷ log)
requests _ log = (panic, log)

abbrev pub om : YcMetrics Log
om = record { observe_duration = durations; increment = requests }

abbrev same : List String → List String → Bool
same [] [] = true
same (x ∷ xs) (y ∷ ys) = let rest = same xs ys in x == y && rest
same _ _ = false

abbrev count : List String → Log → ℕ
count ls [] = 0
count ls (x ∷ xs) = let rest = count ls xs in if same ls x then suc rest else rest

same_refl : (xs : List String) → same xs xs ≡ true
same_refl [] = refl
same_refl (x ∷ xs) = rw (eq_refl x, same_refl xs) refl

same_eq : (xs ys : List String) → same xs ys ≡ true → xs ≡ ys
same_eq [] [] h = refl
same_eq [] (y ∷ ys) h = absurd (cc)
same_eq (x ∷ xs) [] h = absurd (cc)
same_eq (x ∷ xs) (y ∷ ys) h = ground (arith, same_eq xs ys, eq_iff x y)

pub takes : TakesLabels om
takes = record { two_labels = λ a b d m. refl; three_labels = λ a b c m. refl }

duration_apart :
    (ls labels : List String) (d : ℕ) (log : Log)
    → count ls (durations labels d log).1 ≡ count ls log
duration_apart ls [] d log = refl
duration_apart ls (_ ∷ []) d log = refl
duration_apart ls (_ ∷ _ ∷ []) d log = refl
duration_apart ls (_ ∷ _ ∷ _ ∷ _) d log = refl

counts : Counts om count
counts = record {
  takes = takes;
  durations_apart = duration_apart;
  counted = λ a b c log. rw (same_refl (a ∷ b ∷ c ∷ [])) refl;
  others = λ ls a b c log apart. elim (Bool-cases (same ls (a ∷ b ∷ c ∷ []))) [
    | inl e ↦ absurd (apart (same_eq ls (a ∷ b ∷ c ∷ []) e))
    | inr e ↦ rw e refl
  ];
}

abbrev pub now : World → ℕ
now w = 7

abbrev pub listed : {A : Type 0} → Option A → List A
listed none = []
listed (some a) = a ∷ []

abbrev found : {A : Type 0} → Option A → Result A
found none = err (library 5)
found (some a) = ok a

-- An operation is the metadata that it has.
abbrev pub sdk : Sdk World Metadata Metadata
sdk = record {
  instance_get = client.compute_get;
  instance_create = λ req w. (ok (instance_metadata "epd1"), (client.compute_create req w).1);
  instance_delete = λ id w. (ok (other_metadata 0), record w { instance = none });
  target_group_add_targets = λ req w. (ok (other_metadata 1), (client.alb_add_target req w).1);
  target_group_remove_targets =
      λ req w. (ok (other_metadata 2), (client.alb_remove_target req w).1);
  target_group_get = λ id w. (found w.group, w);
  target_group_create =
      λ req w. (ok (target_group_metadata "tg1"), (client.alb_target_group_create req w).1);
  target_group_delete = λ id w. (ok (other_metadata 3), record w { group = none });
  target_group_list = λ req w. (ok (listed w.group), w);
  backend_group_get = λ id w. (found w.backend, w);
  backend_group_create =
      λ req w. (ok (backend_group_metadata "bg1"), (client.alb_backend_group_create req w).1);
  backend_group_delete = λ id w. (ok (other_metadata 4), record w { backend = none });
  backend_group_list = λ req w. (ok (listed w.backend), w);
  load_balancer_get = λ id w. (found w.balancer, w);
  load_balancer_create = λ req w. (ok (load_balancer_metadata "alb1"), (client.alb_create req w).1);
  load_balancer_delete = λ id w. (ok (other_metadata 5), record w { balancer = marked w.balancer });
  load_balancer_list = λ req w. (ok (listed w.balancer), w);
  wrap_operation = λ op w. (ok op, w);
  metadata = λ op. ok op;
  wait = λ op w. (ok tt, w);
  response = λ op w. (ok tt, w);
  create_resolver_filter = λ field name. name;
  default_resolver_page_size = 100;
  shutdown = λ w. (ok tt, w);
}

abbrev nlb : NlbSdk World Metadata String TargetGroup
nlb = record {
  add_targets = λ req w. (ok (other_metadata 6), w);
  remove_targets = λ req w. (err (library 3), w);
  get = λ id w. (found w.group, w);
}

abbrev pub start : Monitored World Log
start = record { world = full_world; metrics = [] }

abbrev key : ObjectKey
key = record { namespace = "default"; name = "prod" }

reconcile_request-Refines_example :
    Refines
      (world_of {M = Log})
      (ClusterReconciler.reconcile_request libs
        (monitored_kube kube)
        (yandex_client om now sdk)
        key)
      (ClusterReconciler.reconcile_request libs kube (direct_client sdk) key)
    × Refines
        (world_of {M = Log})
        (MachineReconciler.reconcile_request libs keys
          (monitored_kube kube)
          (yandex_client om now sdk)
          key)
        (MachineReconciler.reconcile_request libs keys kube (direct_client sdk) key)
reconcile_request-Refines_example = reconcile_request-Refines om now takes sdk kube libs keys key

-- A failed request to a network load balancer.
perform-CountsOne_example :
    CountsOne count
      ("yandexmachine" ∷ "nlb-target-group" ∷ "failed" ∷ [])
      []
      (perform (yandex_api om now sdk nlb) (Requests.nlb_remove_target "r") start).metrics
unfolding service_of status_in
perform-CountsOne_example =
    perform-CountsOne om now sdk nlb counts (Requests.nlb_remove_target "r") start "failed" refl

found_answers :
    {A : Type 0} (o : Option A)
    → (outcome (found o) ≡ some "failed") ⊎ (outcome (found o) ≡ some "success")
found_answers none = inl refl
found_answers (some a) = inr refl

answered :
    (req : Request String) (w : World)
    → (status_in sdk nlb req w ≡ some "failed") ⊎ (status_in sdk nlb req w ≡ some "success")
unfolding status_in
answered (Requests.compute_get id) w = found_answers w.instance
answered (Requests.target_group_get id) w = found_answers w.group
answered (Requests.get_target_group id) w = found_answers w.group
answered (Requests.backend_group_get id) w = found_answers w.backend
answered (Requests.get id) w = found_answers w.balancer
answered (Requests.nlb_get_target_group id) w = found_answers w.group
answered (Requests.nlb_remove_target id) w = inl refl
answered (Requests.compute_delete id) w = inr refl
answered (Requests.compute_create req) w = inr refl
answered (Requests.add_target req) w = inr refl
answered (Requests.remove_target req) w = inr refl
answered (Requests.target_group_delete id) w = inr refl
answered (Requests.target_group_create req) w = inr refl
answered (Requests.target_group_get_by_name folder name) w = inr refl
answered (Requests.backend_group_get_by_name folder name) w = inr refl
answered (Requests.get_by_name folder name) w = inr refl
answered (Requests.backend_group_delete id) w = inr refl
answered (Requests.backend_group_create req) w = inr refl
answered (Requests.create req) w = inr refl
answered (Requests.delete id) w = inr refl
answered (Requests.nlb_add_target id) w = inr refl

abbrev three_requests : List (Request String)
three_requests = Requests.compute_get "epd1" ∷ Requests.delete "alb1" ∷ Requests.get "alb1" ∷ []

total-perform_all_example :
    total count "alb" (perform_all om now sdk nlb three_requests start).metrics
    ≡ sent_to "alb" three_requests + total count "alb" []
total-perform_all_example =
    total-perform_all om now sdk nlb counts answered "alb" three_requests start
