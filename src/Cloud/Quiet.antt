-- ===== src/Cloud/Quiet.antt =====
-- Which calls a step makes, over a state in which the calls are noted.
pub mod Balancers
use cluster_api_provider_yan.Prelude.{
  String, Bool, true, false, Option, none, some, ◌≡◌, refl, sym, subst, List, ◌∷◌, if◌then◌else◌,
}
use cluster_api_provider_yan.Exec.{
  Result, ok, err, panic, Exec, pure, raise, fault, lift, gets, modify, continue, inspect, recover,
  on_error, deferred, ◌>>=◌, ◌>>◌,
}
use cluster_api_provider_yan.Exec.Errors.{Error}
use cluster_api_provider_yan.Cloud.{Client}
use cluster_api_provider_yan.Cloud.Requests.{TargetsRequest}
use cluster_api_provider_yan.Cloud.Recording.{
  Call, delete_instance, add_target_call, remove_target_call, Recorded, recording,
}

-- Between two lists of calls, the latest first, only calls of a kind were made.
pub data Only (P : Call → Type 0) (before : List Call) : List Call → Type 0 where
  here : Only P before before
  then_call : {after : List Call} (c : Call) → P c → Only P before after → Only P before (c ∷ after)

pub Only-trans : {P : Call → Type 0} {a b c : List Call} → Only P a b → Only P b c → Only P a c
Only-trans p here = p
Only-trans p (then_call c h q) = then_call c h (Only-trans p q)

module _ {S : Type 0} (calls_of : S → List Call) (I : S → Type 0) (P : Call → Type 0) where
  -- Where `I` holds before, a step makes calls of the kind `P` only, and `I` holds after.
  pub record Makes {A : Type 0} (m : Exec S A) : Type 0 where
    pub only : (s : S) → I s → Only P (calls_of s) (calls_of (m s).1)
    pub keeps : (s : S) → I s → I (m s).1

module _ {S : Type 0} {calls_of : S → List Call} {I : S → Type 0} {P : Call → Type 0} where
  -- A step that leaves the state.
  module _ {A : Type 0} where
    pub pure-Makes : (a : A) → Makes calls_of I P (pure a)
    pure-Makes a = record { only = λ s i. here; keeps = λ s i. i }

    pub raise-Makes : (e : Error) → Makes calls_of I P {A = A} (raise e)
    raise-Makes e = record { only = λ s i. here; keeps = λ s i. i }

    pub fault-Makes : Makes calls_of I P {A = A} fault
    fault-Makes = record { only = λ s i. here; keeps = λ s i. i }

    pub lift-Makes : (r : Result A) → Makes calls_of I P (lift r)
    lift-Makes r = record { only = λ s i. here; keeps = λ s i. i }

    pub gets-Makes : (f : S → A) → Makes calls_of I P (gets f)
    gets-Makes f = record { only = λ s i. here; keeps = λ s i. i }

    pub if-Makes :
        (b : Bool) {m n : Exec S A}
        → Makes calls_of I P m
        → Makes calls_of I P n
        → Makes calls_of I P (if b then m else n)
    if-Makes true h k = h
    if-Makes false h k = k

  pub modify-Makes :
      (f : S → S)
      → ((s : S) → calls_of (f s) ≡ calls_of s)
      → ((s : S) → I s → I (f s))
      → Makes calls_of I P (modify f)
  modify-Makes f same k = record {
    only = λ s i. subst (λ l. Only P (calls_of s) l) (sym (same s)) here;
    keeps = k;
  }

  module _ {A B : Type 0} where
    continue-Makes :
        (r : Result A) {k : A → Exec S B}
        → ((a : A) → Makes calls_of I P (k a))
        → Makes calls_of I P (continue r k)
    continue-Makes (ok a) h = h a
    continue-Makes (err e) h = record { only = λ s i. here; keeps = λ s i. i }
    continue-Makes panic h = record { only = λ s i. here; keeps = λ s i. i }

    -- A step, and then one that its result decides.
    pub inspect-Makes :
        {m : Exec S A} {k : Result A → Exec S B}
        → Makes calls_of I P m
        → ((r : Result A) → Makes calls_of I P (k r))
        → Makes calls_of I P (inspect m k)
    inspect-Makes {m} h n = record {
      only = λ s i. Only-trans (h.only s i) ((n (m s).0).only (m s).1 (h.keeps s i));
      keeps = λ s i. (n (m s).0).keeps (m s).1 (h.keeps s i);
    }

    pub bind-Makes :
        {m : Exec S A} {k : A → Exec S B}
        → Makes calls_of I P m
        → ((a : A) → Makes calls_of I P (k a))
        → Makes calls_of I P (m >>= k)
    bind-Makes {m} h n = record {
      only = λ s i.
          let next = continue-Makes (m s).0 n in
          Only-trans (h.only s i) (next.only (m s).1 (h.keeps s i));
      keeps = λ s i. let next = continue-Makes (m s).0 n in next.keeps (m s).1 (h.keeps s i);
    }

  module _ {A : Type 0} where
    recover-Makes :
        (r : Result A) {k : Error → Exec S A}
        → ((e : Error) → Makes calls_of I P (k e))
        → Makes calls_of I P (recover r k)
    recover-Makes (ok a) h = record { only = λ s i. here; keeps = λ s i. i }
    recover-Makes (err e) h = h e
    recover-Makes panic h = record { only = λ s i. here; keeps = λ s i. i }

    pub on_error-Makes :
        {m : Exec S A} {k : Error → Exec S A}
        → Makes calls_of I P m
        → ((e : Error) → Makes calls_of I P (k e))
        → Makes calls_of I P (on_error m k)
    on_error-Makes {m} h n = record {
      only = λ s i.
          let next = recover-Makes (m s).0 n in
          Only-trans (h.only s i) (next.only (m s).1 (h.keeps s i));
      keeps = λ s i. let next = recover-Makes (m s).0 n in next.keeps (m s).1 (h.keeps s i);
    }

    pub deferred-Makes :
        {close : Exec S (Unit {0})} {body : Exec S A}
        → Makes calls_of I P close
        → Makes calls_of I P body
        → Makes calls_of I P (deferred close body)
    deferred-Makes {body = body} h n = record {
      only = λ s i. Only-trans (n.only s i) (h.only (body s).1 (n.keeps s i));
      keeps = λ s i. h.keeps (body s).1 (n.keeps s i);
    }

  -- What goes on from a value that is made after a call.
  module _ {A X B : Type 0} {x : X} (f : X → Exec S B) where
    made-Makes :
        Makes calls_of I P (f x)
        → (r : Result A) → Makes calls_of I P (continue r (λ _. pure x) >>= f)
    made-Makes h (ok a) = record { only = h.only; keeps = h.keeps }
    made-Makes h (err e) = record { only = λ s i. here; keeps = λ s i. i }
    made-Makes h panic = record { only = λ s i. here; keeps = λ s i. i }

    pub bind_made-Makes :
        {m : Exec S A}
        → Makes calls_of I P m
        → Makes calls_of I P (f x)
        → Makes calls_of I P ((m >> pure x) >>= f)
    bind_made-Makes {m} h k = record {
      only = λ s i. Only-trans (h.only s i) ((made-Makes k (m s).0).only (m s).1 (h.keeps s i));
      keeps = λ s i. (made-Makes k (m s).0).keeps (m s).1 (h.keeps s i);
    }

  -- What a lookup may not have found.
  pub found-Makes :
      {A X : Type 0} (f : Option X → Exec S A)
      → Makes calls_of I P (f none)
      → ((x : X) → Makes calls_of I P (f (some x)))
      → (o : Option X) → Makes calls_of I P (f o)
  found-Makes f h k none = h
  found-Makes f h k (some x) = k x

  -- A test of the state.
  module _ {A : Type 0} {m n : Exec S A} (h : Makes calls_of I P m) (k : Makes calls_of I P n) where
    decided : (b : Bool) → Makes calls_of I P (λ s. if b then m s else n s)
    decided true = h
    decided false = k

    pub decided-Makes : (test : S → Bool) → Makes calls_of I P (λ s. if test s then m s else n s)
    decided-Makes test = record {
      only = λ s i. (decided (test s)).only s i;
      keeps = λ s i. (decided (test s)).keeps s i;
    }

-- The world alone: whatever holds of the machine, the calls are noted in the world.
module _ {W : Type 0} (P : Call → Type 0) where
  abbrev pub MakesOnly : {A : Type 0} → Exec (Recorded W) A → Type 0
  MakesOnly = Makes (λ (s : Recorded W). s.calls) (λ s. Unit {0}) P

-- A client whose reads make no call, and whose other operations that are called of a machine make
-- the one call that they are.
pub record MakesOwnCalls {W : Type 0} (P : Call → Type 0) (client : Client (Recorded W))
    : Type 0 where
  pub compute_get : (id : String) → MakesOnly P (client.compute_get id)
  pub compute_delete :
      (id : String) → P (delete_instance id) → MakesOnly P (client.compute_delete id)
  pub alb_add_target :
      (req : TargetsRequest) → P (add_target_call req) → MakesOnly P (client.alb_add_target req)
  pub alb_remove_target :
      (req : TargetsRequest)
      → P (remove_target_call req)
      → MakesOnly P (client.alb_remove_target req)
  pub alb_target_group_get_by_name :
      (folder name : String) → MakesOnly P (client.alb_target_group_get_by_name folder name)

pub recording-MakesOwnCalls :
    {W : Type 0} (P : Call → Type 0) (client : Client W) → MakesOwnCalls P (recording client)
recording-MakesOwnCalls P client = record {
  compute_get = λ id. record { only = λ s i. here; keeps = λ s i. i };
  compute_delete = λ id p. record { only = λ s i. then_call _ p here; keeps = λ s i. i };
  alb_add_target = λ req p. record { only = λ s i. then_call _ p here; keeps = λ s i. i };
  alb_remove_target = λ req p. record { only = λ s i. then_call _ p here; keeps = λ s i. i };
  alb_target_group_get_by_name = λ folder name. record { only = λ s i. here; keeps = λ s i. i };
}
