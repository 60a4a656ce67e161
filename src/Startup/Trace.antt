-- ===== src/Startup/Trace.antt =====
-- A specification device: a runtime and a client of the cloud that note what is asked of them and how
-- it came back, the first call first; and the order in which a run asks.
use cluster_api_provider_yan.Prelude.{String, ◌≡◌, ◌≢◌, refl, ap, ◌∙◌, List, [], ◌∷◌, ◌++◌}
use mathlib.Core.List.{append_assoc}
use cluster_api_provider_yan.Exec.{
  Result, ok, err, panic, Exec, continue, on_error, raise, recover, ◌>>=◌,
}
use cluster_api_provider_yan.Exec.Errors.{Error}
use cluster_api_provider_yan.Startup.{Setup, Runtime}

pub data Event : Type 0 where
  setup : Setup → Event
  made_client : String → Event
  closed_client : Event

-- How a call came back: with a value, with an error, or with a panic.
pub data Answer : Type 0 where
  succeeded failed panicked : Answer

abbrev pub answer_of : {A : Type 0} → Result A → Answer
answer_of (ok _) = succeeded
answer_of (err _) = failed
answer_of panic = panicked

abbrev pub Notes : Type 0
Notes = List (Event × Answer)

pub record Traced (W : Type 0) : Type 0 where
  pub world : W
  pub notes : Notes

abbrev pub tracing : {W A : Type 0} → Event → Exec W A → Exec (Traced W) A
tracing e m s =
    let (r, w) = m s.world in (r, record { world = w; notes = s.notes ++ (e, answer_of r) ∷ [] })

abbrev pub traced : {W : Type 0} → Runtime W → Runtime (Traced W)
traced runtime call = tracing (setup call) (runtime call)

-- A run through a plan: each call of it is made in turn, up to the first that does not succeed, which
-- is the last that is made; the run comes back as that one did, and succeeds where all of them do.
pub data Goes : List Event → Notes → Answer → Type 0 where
  all_done : Goes [] [] succeeded
  goes_on :
      {plan : List Event} {notes : Notes} {a : Answer} (e : Event)
      → Goes plan notes a
      → Goes (e ∷ plan) ((e, succeeded) ∷ notes) a
  stops :
      {plan : List Event} {a : Answer} (e : Event) → a ≢ succeeded → Goes (e ∷ plan) ((e, a) ∷ []) a

pub Goes-then :
    {plan plan' : List Event} {notes notes' : Notes} {a b : Answer}
    → Goes plan notes a
    → a ≡ succeeded
    → Goes plan' notes' b
    → Goes (plan ++ plan') (notes ++ notes') b
Goes-then all_done h q = q
Goes-then (goes_on e p) h q = goes_on e (Goes-then p h q)
Goes-then (stops e bad) h q = absurd (bad h)

pub Goes-stop :
    {plan : List Event} {notes : Notes} {a : Answer} (plan' : List Event)
    → Goes plan notes a
    → a ≢ succeeded
    → Goes (plan ++ plan') notes a
Goes-stop plan' all_done bad = absurd (bad refl)
Goes-stop plan' (goes_on e p) bad = goes_on e (Goes-stop plan' p bad)
Goes-stop plan' (stops e worse) bad = stops e worse

-- The call alone.
pub Goes-one : (e : Event) (a : Answer) → Goes (e ∷ []) ((e, a) ∷ []) a
Goes-one e succeeded = goes_on e all_done
Goes-one e failed = stops e (λ h. absurd (cc))
Goes-one e panicked = stops e (λ h. absurd (cc))

-- What was noted between two states is a run through the plan.
pub record Noted (plan : List Event) (before after : Notes) (a : Answer) : Type 0 where
  pub notes : Notes
  pub appended : after ≡ before ++ notes
  pub goes : Goes plan notes a

module _ {plan plan' : List Event} {before between after : Notes} where
  pub Noted-then :
      {b : Answer}
      → Noted plan before between succeeded
      → Noted plan' between after b
      → Noted (plan ++ plan') before after b
  Noted-then p q = record {
    notes = p.notes ++ q.notes;
    appended = q.appended ∙ ap (λ l. l ++ q.notes) p.appended ∙ append_assoc before p.notes q.notes;
    goes = Goes-then p.goes refl q.goes;
  }

pub Noted-stop :
    {plan : List Event} {before after : Notes} {a : Answer} (plan' : List Event)
    → Noted plan before after a
    → a ≢ succeeded
    → Noted (plan ++ plan') before after a
Noted-stop plan' p bad = record {
  notes = p.notes;
  appended = p.appended;
  goes = Goes-stop plan' p.goes bad;
}

pub failed_apart : failed ≢ succeeded
failed_apart h = absurd (cc)

pub panicked_apart : panicked ≢ succeeded
panicked_apart h = absurd (cc)

-- Every run of a step is a run through the plan.
pub record Follows {W A : Type 0} (plan : List Event) (m : Exec (Traced W) A) : Type 0 where
  pub steps : (s : Traced W) → Noted plan s.notes (m s).1.notes (answer_of (m s).0)

pub tracing-Follows : {W A : Type 0} (e : Event) (m : Exec W A) → Follows (e ∷ []) (tracing e m)
tracing-Follows e m = record {
  steps = λ s. record {
    notes = (e, answer_of (m s.world).0) ∷ [];
    appended = refl;
    goes = Goes-one e (answer_of (m s.world).0);
  };
}

module _ {W A : Type 0} {plan plan' : List Event} where
  module _ {B : Type 0} {k : A → Exec (Traced W) B} (h : (a : A) → Follows plan' (k a)) where
    continue-Noted :
        (r : Result A) (before : Notes) (s : Traced W)
        → Noted plan before s.notes (answer_of r)
        → Noted (plan ++ plan') before (continue r k s).1.notes (answer_of (continue r k s).0)
    continue-Noted (ok a) before s p = Noted-then p ((h a).steps s)
    continue-Noted (err e) before s p = Noted-stop plan' p failed_apart
    continue-Noted panic before s p = Noted-stop plan' p panicked_apart

    pub bind-Follows : {m : Exec (Traced W) A} → Follows plan m → Follows (plan ++ plan') (m >>= k)
    bind-Follows {m} f = record { steps = λ s. continue-Noted (m s).0 s.notes (m s).1 (f.steps s) }

-- A handler that makes another error of an error.
module _ {W A : Type 0} {plan : List Event} (change : Error → Error) where
  recover-Noted :
      (r : Result A) (before : Notes) (s : Traced W)
      → Noted plan before s.notes (answer_of r)
      → Noted plan before
          (recover r (λ e. raise (change e)) s).1.notes
          (answer_of (recover r (λ e. raise (change e)) s).0)
  recover-Noted (ok a) before s p = p
  recover-Noted (err e) before s p = p
  recover-Noted panic before s p = p

  pub on_error-Follows :
      {m : Exec (Traced W) A} → Follows plan m → Follows plan (on_error m (λ e. raise (change e)))
  on_error-Follows {m} f = record { steps = λ s. recover-Noted (m s).0 s.notes (m s).1 (f.steps s) }
