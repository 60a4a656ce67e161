-- ===== src/LoadBalancer/Alb/Targets/Registration.antt =====
-- Which addresses are registered in the target group of the load balancer, and the calls that
-- `addTargetALB` and `removeTargetALB` make.
use cluster_api_provider_yan.Prelude.{
  String, ◌≡◌, refl, ap, sym, ◌↔◌, ◌==◌, eq_iff, Bool, true, ◌&&◌, Option, none, some, List, [],
  ◌∷◌, ◌++◌, arith, if◌then◌else◌, Bool-cases, inl, inr,
}
use cluster_api_provider_yan.Prelude.Lists.{any}
use mathlib.Core.Option.{some-injective}
use mathlib.Core.List.{Memᴰ}
use mathlib.Core.List.Memᴰ
use cluster_api_provider_yan.Exec.{Result, ok, err, panic}
use cluster_api_provider_yan.Cloud.{Client}
use cluster_api_provider_yan.Cloud.Messages.{Target, TargetGroup}
use cluster_api_provider_yan.Cloud.Recording.{Call, recording, add_target_call, remove_target_call}
use cluster_api_provider_yan.Cloud.Requests.{TargetsRequest}
use cluster_api_provider_yan.Kube.{Libraries}
use cluster_api_provider_yan.Scope.Cluster.{ClusterScope, get_folder_id, get_lb_name}
use cluster_api_provider_yan.LoadBalancer.Alb.Reads.{has_address, is_address_registered_alb}
use cluster_api_provider_yan.LoadBalancer.Alb.Targets.{add_target_alb, remove_target_alb}

-- The target that stands for an address in a subnet.
abbrev pub target : String → String → Target
target addr subnet = record { address_type = some addr; subnet_id = subnet }

has_address_iff :
    (o : Option String) (addr : String) → (has_address o addr ≡ true) ↔ (o ≡ some addr)
has_address_iff none addr = ground arith
has_address_iff (some a) addr = ground (arith, eq_iff a addr)

abbrev is_target : String → String → Target → Bool
is_target addr subnet t = has_address t.address_type addr && t.subnet_id == subnet

is_target_iff :
    (addr subnet : String) (t : Target)
    → (is_target addr subnet t ≡ true) ↔ (t ≡ target addr subnet)
is_target_iff addr subnet t =
    ground (arith, has_address_iff t.address_type addr, eq_iff t.subnet_id subnet)

registered→mem :
    (addr subnet : String) (ts : List Target)
    → any (is_target addr subnet) ts ≡ true
    → Memᴰ (target addr subnet) ts
registered→mem addr subnet [] h = absurd (cc)
registered→mem addr subnet (t ∷ ts) h = elim (Bool-cases (is_target addr subnet t)) [
  | inl here ↦ Memᴰ.head (sym ((is_target_iff addr subnet t).0 here))
  | inr not_here ↦ Memᴰ.tail (registered→mem addr subnet ts (ground arith))
]

mem→registered :
    (addr subnet : String) {ts : List Target}
    → Memᴰ (target addr subnet) ts
    → any (is_target addr subnet) ts ≡ true
mem→registered addr subnet (Memᴰ.head {x = t} e) = rw ((is_target_iff addr subnet t).1 (sym e))
mem→registered addr subnet (Memᴰ.tail m) = ground (arith, mem→registered addr subnet m)

-- `isAddressRegisteredALB` says yes exactly where the group holds the target of this address in
-- this subnet.
pub is_address_registered_alb_iff :
    (addr subnet : String) (tg : TargetGroup)
    → (is_address_registered_alb addr subnet tg ≡ true) ↔ Memᴰ (target addr subnet) tg.targets
unfolding is_address_registered_alb
is_address_registered_alb_iff addr subnet tg =
    (registered→mem addr subnet tg.targets, mem→registered addr subnet)

-- What the cloud documents of target groups: a lookup changes nothing; targets that were added are
-- appended to the group, and a target that was removed is not in it any more.
pub record KeepsTargets {W : Type 0} (client : Client W) : Type 0 where
  pub lookup_reads :
      (folder name : String) (w : W) → (client.alb_target_group_get_by_name folder name w).1 ≡ w
  pub added :
      (folder name : String) (tg : TargetGroup) (t : Target) (w w' : W)
      → client.alb_target_group_get_by_name folder name w ≡ (ok (some tg), w)
      → client.alb_add_target (record { target_group_id = tg.id; targets = t ∷ [] }) w ≡ (ok tt, w')
      → client.alb_target_group_get_by_name folder name w'
        ≡ (ok (some (record tg { targets = tg.targets ++ t ∷ [] })), w')
  pub removed :
      (folder name : String) (tg : TargetGroup) (t : Target) (w w' : W)
      → client.alb_target_group_get_by_name folder name w ≡ (ok (some tg), w)
      → client.alb_remove_target (record { target_group_id = tg.id; targets = t ∷ [] }) w
        ≡ (ok tt, w')
      → (tg' : TargetGroup) × (client.alb_target_group_get_by_name folder name w'
          ≡ (ok (some tg'), w'))
        × (¬ Memᴰ t tg'.targets)

module _ {W : Type 0} (libs : Libraries) (client : Client W) (c : ClusterScope)
    (addr subnet : String) where
  abbrev pub tg_lookup : W → Result (Option TargetGroup) × W
  tg_lookup w = client.alb_target_group_get_by_name (get_folder_id c) (get_lb_name libs c) w

  abbrev pub request : TargetGroup → TargetsRequest
  request tg = record { target_group_id = tg.id; targets = target addr subnet ∷ [] }

  -- Where its lookup succeeds, `addTargetALB` asks for one target to be added, in the group that was
  -- found, exactly where that target is not registered in it;
  -- `removeTargetALB` asks for one target to be removed exactly where it is registered in the group
  -- that was found. Neither asks for anything else.
  pub target_calls :
      (w : W) (calls : List Call) (tg : Option TargetGroup)
      → (tg_lookup w).0 ≡ ok tg
      → ((add_target_alb libs
            (recording client)
            c
            addr
            subnet
            (record { world = w; calls = calls })).1.calls
          ≡ elim tg [
            | none ↦ calls
            | some g ↦
                if is_address_registered_alb addr subnet g
                then calls
                else add_target_call (request g) ∷ calls
          ])
        × ((remove_target_alb libs
              (recording client)
              c
              addr
              subnet
              (record { world = w; calls = calls })).1.calls
            ≡ elim tg [
              | none ↦ calls
              | some g ↦
                  if is_address_registered_alb addr subnet g
                  then remove_target_call (request g) ∷ calls
                  else calls
            ])
  unfolding add_target_alb remove_target_alb
  target_calls w calls none h = ground arith
  target_calls w calls (some g) h = ground arith

  module _ (K : KeepsTargets client) where
    found : (w : W) (tg : Option TargetGroup) → (tg_lookup w).0 ≡ ok tg → tg_lookup w ≡ (ok tg, w)
    found w tg h = ground (arith, K.lookup_reads (get_folder_id c) (get_lb_name libs c) w)

    abbrev Registered : W → Type 0
    Registered w' =
        (tg : TargetGroup) × (tg_lookup w' ≡ (ok (some tg), w'))
        × Memᴰ (target addr subnet) tg.targets

    add_from :
        (w w' : W) (r : Result (Option TargetGroup))
        → tg_lookup w ≡ (r, w)
        → add_target_alb libs client c addr subnet w ≡ (ok tt, w')
        → Registered w'
    unfolding add_target_alb
    add_from w w' (err e) l h = absurd (ground arith)
    add_from w w' panic l h = absurd (ground arith)
    add_from w w' (ok none) l h = absurd (ground arith)
    add_from w w' (ok (some g)) l h = elim (Bool-cases (is_address_registered_alb addr subnet g)) [
      | inl old ↦ (g, ground arith, (is_address_registered_alb_iff addr subnet g).0 old)
      | inr new ↦ (
        record g { targets = g.targets ++ target addr subnet ∷ [] },
        K.added _ _ g (target addr subnet) w w' l (ground arith),
        Memᴰ.append_right g.targets (Memᴰ.head refl),
      )
    ]

    lookup_now : (w : W) → tg_lookup w ≡ ((tg_lookup w).0, w)
    lookup_now w = ground (arith, K.lookup_reads (get_folder_id c) (get_lb_name libs c) w)

    -- In a cloud that keeps targets, after an `addTargetALB` that returned no error the target group
    -- is found and holds the target, and the same call made again returns no error and changes
    -- nothing.
    pub add_target_alb_registers :
        (w w' : W)
        → add_target_alb libs client c addr subnet w ≡ (ok tt, w')
        → Registered w' × (add_target_alb libs client c addr subnet w' ≡ (ok tt, w'))
    add_target_alb_registers w w' h =
        let reg : Registered w' = add_from w w' (tg_lookup w).0 (lookup_now w) h in (reg, again reg)
      where
        again : Registered w' → add_target_alb libs client c addr subnet w' ≡ (ok tt, w')
        again (tg, l, m) =
            unfold add_target_alb in rw (l, (is_address_registered_alb_iff addr subnet tg).1 m)

    abbrev Deregistered : W → Type 0
    Deregistered w' =
        (tg : Option TargetGroup) × (tg_lookup w' ≡ (ok tg, w'))
        × ((g : TargetGroup) → tg ≡ some g → ¬ Memᴰ (target addr subnet) g.targets)

    remove_from :
        (w w' : W) (r : Result (Option TargetGroup))
        → tg_lookup w ≡ (r, w)
        → remove_target_alb libs client c addr subnet w ≡ (ok tt, w')
        → Deregistered w'
    unfolding remove_target_alb
    remove_from w w' (err e) l h = absurd (ground arith)
    remove_from w w' panic l h = absurd (ground arith)
    remove_from w w' (ok none) l h = (none, ground arith, λ g e. absurd (cc))
    remove_from w w' (ok (some g)) l h =
        elim (Bool-cases (is_address_registered_alb addr subnet g)) [
          | inl old ↦
              let (g', l', gone) = K.removed _ _ g (target addr subnet) w w' l (ground arith) in
              (some g', l', λ g'' e. rw (← some-injective g' g'' e) gone)
          | inr new ↦ (
            some g,
            ground arith,
            λ g' e m. cc (
              new,
              (is_address_registered_alb_iff addr subnet g').1 m,
              ap (is_address_registered_alb addr subnet) (some-injective g g' e),
            ),
          )
        ]

    -- In a cloud that keeps targets, after a `removeTargetALB` that returned no error the lookup
    -- finds no target group, or one that does not hold the target.
    pub remove_target_alb_deregisters :
        (w w' : W) → remove_target_alb libs client c addr subnet w ≡ (ok tt, w') → Deregistered w'
    remove_target_alb_deregisters w w' h = remove_from w w' (tg_lookup w).0 (lookup_now w) h
