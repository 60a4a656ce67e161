-- ===== src/Tests/Balancers.antt =====
-- The load balancer service over the small cloud.
use cluster_api_provider_yan.Prelude.{
  String, ◌≡◌, ◌↔◌, ◌⊎◌, refl, ap, ◌∙◌, sym, true, false, Option, none, some, List, [], ◌∷◌, ◌++◌,
  arith, eq_iff, Bool-cases, Option-cases, inl, inr,
}
use cluster_api_provider_yan.Prelude.Int.{pos}
use mathlib.Core.List.{Memᴰ}
use cluster_api_provider_yan.Exec.{ok}
use cluster_api_provider_yan.Cloud.Messages.{Target, TargetGroup}
use cluster_api_provider_yan.Cloud.Recording.{recording, add_target_call, delete_backend_group}
use cluster_api_provider_yan.LoadBalancer.Builders.BackendGroup
use cluster_api_provider_yan.LoadBalancer.Builders.BackendGroup.{create_health_checks}
use cluster_api_provider_yan.LoadBalancer.Builders.BackendGroup.Durations.{
  create_health_checks_exact,
}
use cluster_api_provider_yan.LoadBalancer.Alb.Reads.{
  get_internal_address, get_internal_port, is_address_registered_alb,
}
use cluster_api_provider_yan.LoadBalancer.Alb.Deletion.{delete_alb_service}
use cluster_api_provider_yan.LoadBalancer.Alb.Deletion.Order
use cluster_api_provider_yan.LoadBalancer.Alb.Deletion.Order.{
  delete_alb_service_deleted_iff, delete_alb_service_calls,
}
use cluster_api_provider_yan.LoadBalancer.Alb.Creation.{reconcile_existing, reconcile_alb_service}
use cluster_api_provider_yan.LoadBalancer.Alb.Creation.Listener.{reconcile_existing_ok_iff}
use cluster_api_provider_yan.LoadBalancer.Alb.Creation.Calls
use cluster_api_provider_yan.LoadBalancer.Alb.Creation.Calls.{reconcile_alb_service_calls}
use cluster_api_provider_yan.LoadBalancer.Alb.Targets.{add_target_alb, remove_target_alb}
use cluster_api_provider_yan.LoadBalancer.Alb.Targets.Registration
use cluster_api_provider_yan.LoadBalancer.Alb.Targets.Registration.{
  KeepsTargets, target, is_address_registered_alb_iff, target_calls, add_target_alb_registers,
  remove_target_alb_deregisters,
}
use cluster_api_provider_yan.Tests.Fixtures.{
  World, a_balancer, client, cluster, empty_world, full_world, libs, scope, without, same_target,
  yandex_cluster,
}

abbrev no_balancer : World
no_balancer = record full_world { balancer = none }

-- The backend group goes first once the load balancer is gone.
delete_alb_service_calls_example :
    (delete_alb_service libs
      (recording client)
      scope
      (record { world = no_balancer; calls = [] })).1.calls
    ≡ delete_backend_group "bg1" ∷ []
delete_alb_service_calls_example =
    delete_alb_service_calls libs client scope no_balancer [] none (some (record { id = "bg1" }))
      (some (record { id = "tg1"; targets = [] })) refl refl refl

delete_alb_service_deleted_iff_example :
    (delete_alb_service libs client scope empty_world ≡ (ok true, empty_world)) ↔ (
      ((Order.lb_lookup libs client scope empty_world).0 ≡ ok none)
      × ((Order.bg_lookup libs client scope empty_world).0 ≡ ok none)
      × (Order.tg_lookup libs client scope empty_world ≡ (ok none, empty_world)))
delete_alb_service_deleted_iff_example =
    delete_alb_service_deleted_iff libs client scope empty_world empty_world

-- Everything is missing, and is created.
reconcile_alb_service_calls_example :
    (reconcile_alb_service libs (recording client) cluster (record {
      world = record { world = empty_world; calls = [] };
      yandex_cluster = yandex_cluster;
    })).1.world.calls
    ≡ Calls.due libs client cluster yandex_cluster empty_world none none "tg1" "bg1" none []
reconcile_alb_service_calls_example =
    reconcile_alb_service_calls libs client cluster yandex_cluster empty_world none none "tg1" "bg1"
      [] none refl refl refl refl refl

abbrev two_targets : TargetGroup
two_targets = record {
  id = "tg1";
  targets = target "10.0.0.2" "subnet1" ∷ target "10.0.0.3" "subnet1" ∷ [];
}

abbrev with_targets : World
with_targets = record full_world { group = some two_targets }

target_calls_example :
    ((add_target_alb libs
        (recording client)
        scope
        "10.0.0.4"
        "subnet1"
        (record { world = with_targets; calls = [] })).1.calls
      ≡ add_target_call
          (record { target_group_id = "tg1"; targets = target "10.0.0.4" "subnet1" ∷ [] })
        ∷ [])
    × ((remove_target_alb libs
          (recording client)
          scope
          "10.0.0.4"
          "subnet1"
          (record { world = with_targets; calls = [] })).1.calls
        ≡ [])
unfolding is_address_registered_alb
target_calls_example =
    target_calls libs client scope "10.0.0.4" "subnet1" with_targets [] (some two_targets) refl

same_self : (t : Target) → same_target t t ≡ true
same_self t = elim (Option-cases t.address_type) [
  | inl no_address ↦ rw no_address ((eq_iff t.subnet_id t.subnet_id).1 refl)
  | inr (a, address) ↦ rw (address, (eq_iff a a).1 refl) ((eq_iff t.subnet_id t.subnet_id).1 refl)
]

other_front :
    (t x : Target) (xs : List Target) → same_target t x ≡ false → ¬ Memᴰ t xs → ¬ Memᴰ t (x ∷ xs)
other_front t x xs other rest (Memᴰ.head e) =
    cc (sym other ∙ (ap (same_target t) (sym e) ∙ same_self t))
other_front t x xs other rest (Memᴰ.tail m) = rest m

not_in_without : (t : Target) (ts : List Target) → ¬ Memᴰ t (without t ts)
not_in_without t [] m = elim m [ ]
not_in_without t (x ∷ xs) m = elim (Bool-cases (same_target t x)) [
  | inl same ↦ not_in_without t xs (rw same at m)
  | inr other ↦ other_front t x (without t xs) other (not_in_without t xs) (rw other at m)
]

keeps_targets : KeepsTargets client
keeps_targets = record {
  lookup_reads = λ folder name w. refl;
  added = λ folder name tg t w w' l a. ground arith;
  removed = λ folder name tg t w w' l r.
      (record tg { targets = without t tg.targets }, ground arith, not_in_without t tg.targets);
}

abbrev with_third : World
with_third = record full_world {
  group =
      some
        (record { id = "tg1"; targets = two_targets.targets ++ target "10.0.0.4" "subnet1" ∷ [] });
}

add_target_alb_registers_example :
    ((tg : TargetGroup) × (Registration.tg_lookup libs client scope "10.0.0.4" "subnet1" with_third
        ≡ (ok (some tg), with_third))
      × Memᴰ (target "10.0.0.4" "subnet1") tg.targets)
    × (add_target_alb libs client scope "10.0.0.4" "subnet1" with_third ≡ (ok tt, with_third))
unfolding add_target_alb is_address_registered_alb
add_target_alb_registers_example =
    add_target_alb_registers libs client scope "10.0.0.4" "subnet1" keeps_targets with_targets
      with_third refl

abbrev with_one : World
with_one = record full_world {
  group = some (record { id = "tg1"; targets = target "10.0.0.2" "subnet1" ∷ [] });
}

remove_target_alb_deregisters_example :
    (tg : Option TargetGroup) × (Registration.tg_lookup libs client scope "10.0.0.3" "subnet1"
        with_one
      ≡ (ok tg, with_one))
    × ((g : TargetGroup) → tg ≡ some g → ¬ Memᴰ (target "10.0.0.3" "subnet1") g.targets)
unfolding remove_target_alb is_address_registered_alb
remove_target_alb_deregisters_example =
    remove_target_alb_deregisters libs client scope "10.0.0.3" "subnet1" keeps_targets with_targets
      with_one refl

abbrev reported : String
reported = "10.0.0.9"

reconcile_existing_ok_iff_example :
    (reconcile_existing scope a_balancer full_world ≡ (ok tt, full_world))
    ↔ (((reported ≡ "") ⊎ (reported ≡ "10.0.0.9")) × ((pos 8443 ≡ pos 0) ⊎ (pos 8443 ≡ pos 8443)))
unfolding get_internal_address get_internal_port
reconcile_existing_ok_iff_example =
    reconcile_existing_ok_iff scope a_balancer reported (pos 8443) full_world refl
      (λ e. absurd (ground (arith, eq_iff "10.0.0.9" ""))) refl refl

create_health_checks_exact_example :
    create_health_checks (BackendGroup.new yandex_cluster.spec.load_balancer)
    ≡ record {
      timeout = pos 1000000000;
      interval = pos 3000000000;
      unhealthy_threshold = pos 3;
      healthy_threshold = pos 3;
    }
      ∷ []
create_health_checks_exact_example =
    create_health_checks_exact (BackendGroup.new yandex_cluster.spec.load_balancer) 1 3 refl refl
      (omega arith) (omega arith)
