-- ===== src/Cloud/Refinement.antt =====
-- A step over a detailed state refines a step over an abstract one where it gives the same result and
-- does the same to what can be seen of the state.
use cluster_api_provider_yan.Prelude.{
  String, Bool, true, false, Option, none, some, ◌≡◌, refl, ap, if◌then◌else◌,
}
use cluster_api_provider_yan.Exec.{
  Result, ok, err, panic, Exec, pure, lift, raise, fault, modify, inspect, on_error, recover,
  deferred, after_defer, continue, ◌>>=◌, ◌>>◌,
}
use cluster_api_provider_yan.Exec.Errors.{Error}
use cluster_api_provider_yan.Cloud.{Client}
use cluster_api_provider_yan.Cloud.Requests.{
  CreateInstanceRequest, CreateTargetGroupRequest, CreateBackendGroupRequest,
  CreateLoadBalancerRequest, TargetsRequest,
}

module _ {S W : Type 0} (view : S → W) where
  pub record Refines {A : Type 0} (detailed : Exec S A) (abstract : Exec W A) : Type 0 where
    pub same_result : (s : S) → (detailed s).0 ≡ (abstract (view s)).0
    pub same_world : (s : S) → view (detailed s).1 ≡ (abstract (view s)).1

  pub pure-Refines : {A : Type 0} (a : A) → Refines (pure a) (pure a)
  pure-Refines a = record { same_result = λ s. refl; same_world = λ s. refl }

  pub lift-Refines : {A : Type 0} (r : Result A) → Refines (lift r) (lift r)
  lift-Refines r = record { same_result = λ s. refl; same_world = λ s. refl }

  module _ {A B : Type 0} {f : A → Exec S B} {g : A → Exec W B}
      (k : (a : A) → Refines (f a) (g a)) where
    continue-Refines : (r : Result A) → Refines (continue r f) (continue r g)
    continue-Refines (ok a) = k a
    continue-Refines (err e) = record { same_result = λ s. refl; same_world = λ s. refl }
    continue-Refines panic = record { same_result = λ s. refl; same_world = λ s. refl }

    -- Steps that refine make a sequence that refines.
    pub bind-Refines : {m : Exec S A} {n : Exec W A} → Refines m n → Refines (m >>= f) (n >>= g)
    bind-Refines {m} {n} h = record {
      same_result = λ s.
          let next = continue-Refines (m s).0 in
          rw (← h.same_result s, ← h.same_world s) (next.same_result (m s).1);
      same_world = λ s.
          let next = continue-Refines (m s).0 in
          rw (← h.same_result s, ← h.same_world s) (next.same_world (m s).1);
    }

  pub raise-Refines : {A : Type 0} (e : Error) → Refines {A = A} (raise e) (raise e)
  raise-Refines e = record { same_result = λ s. refl; same_world = λ s. refl }

  pub fault-Refines : {A : Type 0} → Refines {A = A} fault fault
  fault-Refines = record { same_result = λ s. refl; same_world = λ s. refl }

  module _ {A : Type 0} where
    pub if-Refines :
        (b : Bool) {m m' : Exec S A} {n n' : Exec W A}
        → Refines m n
        → Refines m' n'
        → Refines (if b then m else m') (if b then n else n')
    if-Refines true h h' = h
    if-Refines false h h' = h'

    -- What is done with the object that a lookup may have found.
    pub found-Refines :
        {X : Type 0} (f : Option X → Exec S A) (g : Option X → Exec W A)
        → Refines (f none) (g none)
        → ((x : X) → Refines (f (some x)) (g (some x)))
        → (o : Option X) → Refines (f o) (g o)
    found-Refines f g h k none = h
    found-Refines f g h k (some x) = k x

  pub modify-Refines :
      (change : S → S) (same : W → W)
      → ((s : S) → view (change s) ≡ same (view s))
      → Refines (modify change) (modify same)
  modify-Refines change same h = record { same_result = λ s. refl; same_world = h }

  module _ {A B : Type 0} {f : Result A → Exec S B} {g : Result A → Exec W B}
      (k : (r : Result A) → Refines (f r) (g r)) where
    same_next :
        (r r' : Result A) (s : S) (w : W)
        → r ≡ r'
        → view s ≡ w
        → ((f r s).0 ≡ (g r' w).0) × (view (f r s).1 ≡ (g r' w).1)
    same_next r r' s w e h = rw (← e, ← h) ((k r).same_result s, (k r).same_world s)

    pub inspect-Refines :
        {m : Exec S A} {n : Exec W A} → Refines m n → Refines (inspect m f) (inspect n g)
    inspect-Refines h = record {
      same_result = λ s. (same_next _ _ _ _ (h.same_result s) (h.same_world s)).0;
      same_world = λ s. (same_next _ _ _ _ (h.same_result s) (h.same_world s)).1;
    }

  module _ {A : Type 0} {f : Error → Exec S A} {g : Error → Exec W A}
      (k : (e : Error) → Refines (f e) (g e)) where
    recover-Refines : (r : Result A) → Refines (recover r f) (recover r g)
    recover-Refines (ok a) = pure-Refines a
    recover-Refines (err e) = k e
    recover-Refines panic = fault-Refines

    pub on_error-Refines :
        {m : Exec S A} {n : Exec W A} → Refines m n → Refines (on_error m f) (on_error n g)
    on_error-Refines h = inspect-Refines recover-Refines h

  -- A deferred call after a body.
  pub deferred-Refines :
      {A : Type 0} {close : Exec S (Unit {0})} {shut : Exec W (Unit {0})} {m : Exec S A}
      {n : Exec W A}
      → Refines close shut
      → Refines m n
      → Refines (deferred close m) (deferred shut n)
  deferred-Refines {close = close} {shut = shut} {m = m} {n = n} c h = record {
    same_result = λ s.
        rw (← h.same_result s, ← h.same_world s) (ap (after_defer (m s).0) (c.same_result (m s).1));
    same_world = λ s. rw (← h.same_world s) (c.same_world (m s).1);
  }

  -- What goes on from a value that is made after a call: the values may differ on the two sides.
  module _ {A X Y B : Type 0} {x : X} {y : Y} (f : X → Exec S B) (g : Y → Exec W B)
      (k : Refines (f x) (g y)) where
    abbrev made : Result A → Exec S B
    made r = continue r (λ _. pure x) >>= f

    abbrev same_made : Result A → Exec W B
    same_made r = continue r (λ _. pure y) >>= g

    made-Refines : (r : Result A) → Refines (made r) (same_made r)
    made-Refines (ok a) = record { same_result = k.same_result; same_world = k.same_world }
    made-Refines (err e) = record { same_result = λ s. refl; same_world = λ s. refl }
    made-Refines panic = record { same_result = λ s. refl; same_world = λ s. refl }

    same_after :
        (r r' : Result A) (s : S) (w : W)
        → r ≡ r'
        → view s ≡ w
        → ((made r s).0 ≡ (same_made r' w).0) × (view (made r s).1 ≡ (same_made r' w).1)
    same_after r r' s w e h =
        rw (← e, ← h) ((made-Refines r).same_result s, (made-Refines r).same_world s)

    pub bind_made-Refines :
        {m : Exec S A} {n : Exec W A}
        → Refines m n
        → Refines ((m >> pure x) >>= f) ((n >> pure y) >>= g)
    bind_made-Refines {m} {n} h = record {
      same_result = λ s.
          (same_after (m s).0 (n (view s)).0 (m s).1 (n (view s)).1 (h.same_result s)
            (h.same_world s)).0;
      same_world = λ s.
          (same_after (m s).0 (n (view s)).0 (m s).1 (n (view s)).1 (h.same_result s)
            (h.same_world s)).1;
    }

  -- Each operation of one client refines that of another.
  pub record RefinesClient (detailed : Client S) (abstract : Client W) : Type 0 where
    pub compute_get : (id : String) → Refines (detailed.compute_get id) (abstract.compute_get id)
    pub compute_create :
        (req : CreateInstanceRequest)
        → Refines (detailed.compute_create req) (abstract.compute_create req)
    pub compute_delete :
        (id : String) → Refines (detailed.compute_delete id) (abstract.compute_delete id)
    pub alb_add_target :
        (req : TargetsRequest) → Refines (detailed.alb_add_target req) (abstract.alb_add_target req)
    pub alb_remove_target :
        (req : TargetsRequest)
        → Refines (detailed.alb_remove_target req) (abstract.alb_remove_target req)
    pub alb_target_group_create :
        (req : CreateTargetGroupRequest)
        → Refines (detailed.alb_target_group_create req) (abstract.alb_target_group_create req)
    pub alb_target_group_delete :
        (id : String)
        → Refines (detailed.alb_target_group_delete id) (abstract.alb_target_group_delete id)
    pub alb_target_group_get_by_name :
        (folder name : String)
        → Refines
            (detailed.alb_target_group_get_by_name folder name)
            (abstract.alb_target_group_get_by_name folder name)
    pub alb_backend_group_create :
        (req : CreateBackendGroupRequest)
        → Refines (detailed.alb_backend_group_create req) (abstract.alb_backend_group_create req)
    pub alb_backend_group_delete :
        (id : String)
        → Refines (detailed.alb_backend_group_delete id) (abstract.alb_backend_group_delete id)
    pub alb_backend_group_get_by_name :
        (folder name : String)
        → Refines
            (detailed.alb_backend_group_get_by_name folder name)
            (abstract.alb_backend_group_get_by_name folder name)
    pub alb_create :
        (req : CreateLoadBalancerRequest)
        → Refines (detailed.alb_create req) (abstract.alb_create req)
    pub alb_delete : (id : String) → Refines (detailed.alb_delete id) (abstract.alb_delete id)
    pub alb_get_by_name :
        (folder name : String)
        → Refines (detailed.alb_get_by_name folder name) (abstract.alb_get_by_name folder name)
