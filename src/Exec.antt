-- ===== src/Exec.antt =====
-- Go functions that return an error, may panic, and change what they are handed: the state comes
-- back beside the error and beside the panic, since what was written before stays written.
pub mod Errors
use cluster_api_provider_yan.Prelude.{Bool, true, false, Option, none, some}
use cluster_api_provider_yan.Exec.Errors.{Error}

pub data Result {ℓ} (A : Type ℓ) : Type ℓ where
  ok : A → Result A
  err : Error → Result A
  panic : Result A

abbrev pub Exec {ℓ} : Type 0 → Type ℓ → Type ℓ
Exec S A = S → Result A × S

-- A step that returns without a call: with an error, with a panic (a nil dereference or an index out
-- of range), with a value, with what a result says, or with what is read of the state.
module _ {S A : Type 0} where
  abbrev pub raise : Error → Exec S A
  raise e state = (err e, state)

  abbrev pub fault : Exec S A
  fault state = (panic, state)

  abbrev pub pure : A → Exec S A
  pure value state = (ok value, state)

  abbrev pub lift : Result A → Exec S A
  lift result state = (result, state)

  abbrev pub gets : (S → A) → Exec S A
  gets read state = (ok (read state), state)

abbrev pub modify : {S : Type 0} → (S → S) → Exec S (Unit {0})
modify change state = (ok tt, change state)

module _ {S A B : Type 0} where
  infixl 10 ◌>>=◌ ◌>>◌
  -- What follows a step is skipped where it gave an error or a panic.
  abbrev pub continue : Result A → (A → Exec S B) → Exec S B
  continue panic next state = (panic, state)
  continue (err e) next state = (err e, state)
  continue (ok value) next state = next value state

  abbrev pub ◌>>=◌ : Exec S A → (A → Exec S B) → Exec S B
  ◌>>=◌ step next state = let (result, after) = step state in continue result next after

  abbrev pub ◌>>◌ : Exec S A → Exec S B → Exec S B
  step >> next = step >>= λ _. next

-- The result of a body, its deferred call's result given: an error of the deferred call shows
-- only where the body returned none, and a panic is never hidden.
abbrev pub after_defer : {A : Type 0} → Result A → Result (Unit {0}) → Result A
after_defer (ok a) (ok _) = ok a
after_defer (ok a) (err e) = err e
after_defer (err e) (ok _) = err e
after_defer (err e) (err _) = err e
after_defer panic _ = panic
after_defer _ panic = panic

-- A call whose result, an error or a panic included, decides how to go on.
abbrev pub inspect : {S A B : Type 0} → Exec S A → (Result A → Exec S B) → Exec S B
inspect m k s = let (r, s') = m s in k r s'

-- `*p`, which panics where `p` is nil.
abbrev pub deref : {A : Type 0} → Option A → Result A
deref none = panic
deref (some a) = ok a

module _ {S A : Type 0} where
  abbrev pub recover : Result A → (Error → Exec S A) → Exec S A
  recover (ok a) handle s = (ok a, s)
  recover (err e) handle s = handle e s
  recover panic handle s = (panic, s)

  -- `if err != nil { … }` after a call: the handler goes on from the state that the call left.
  abbrev pub on_error : Exec S A → (Error → Exec S A) → Exec S A
  on_error m handle s = let (r, s') = m s in recover r handle s'

  -- `defer func() { if err := close(); err != nil && rerr == nil { rerr = err } }()`
  abbrev pub deferred : Exec S (Unit {0}) → Exec S A → Exec S A
  deferred close body s =
      let (r, s') = body s in let (r', s'') = close s' in (after_defer r r', s'')

abbrev pub is_ok : {A : Type 0} → Result A → Bool
is_ok (ok _) = true
is_ok (err _) = false
is_ok panic = false

abbrev pub is_panic : {A : Type 0} → Result A → Bool
is_panic (ok _) = false
is_panic (err _) = false
is_panic panic = true
