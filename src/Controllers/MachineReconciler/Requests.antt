-- ===== src/Controllers/MachineReconciler/Requests.antt =====
-- The requests that `YandexClusterToYandexMachines` makes of the machines of a cluster.
use cluster_api_provider_yan.Prelude.{
  ◌≡◌, ◌≢◌, refl, ap, ◌∙◌, ◌↔◌, ◌==◌, List, [], ◌∷◌, arith, eq_iff, Bool-cases, inl, inr,
}
use mathlib.Core.List.{Memᴰ}
use cluster_api_provider_yan.Prelude.Text.{ne_test}
use cluster_api_provider_yan.Kube.{Machine, ObjectKey}
use cluster_api_provider_yan.Controllers.MachineReconciler.{machine_requests}

-- The key of the machine's infrastructure object.
abbrev pub key_of : Machine → ObjectKey
key_of m = record { namespace = m.namespace; name = m.infrastructure_ref_name }

-- A machine of the list that names an infrastructure object, under that key.
abbrev pub Names : ObjectKey → List Machine → Type 0
Names k ms = (m : Machine) × Memᴰ m ms × (m.infrastructure_ref_name ≢ "") × (k ≡ key_of m)

in_front :
    (k : ObjectKey) (m : Machine) {ms : List Machine} {requests : List ObjectKey}
    → m.infrastructure_ref_name ≢ ""
    → (Memᴰ k requests → Names k ms)
    → Memᴰ k (key_of m ∷ requests)
    → Names k (m ∷ ms)
in_front k m named rest (Memᴰ.head e) = (m, Memᴰ.head refl, named, e)
in_front k m named rest (Memᴰ.tail t) = let (m', mem, n, e) = rest t in (m', Memᴰ.tail mem, n, e)

requested→named : (k : ObjectKey) (ms : List Machine) → Memᴰ k (machine_requests ms) → Names k ms
unfolding machine_requests
requested→named k [] h = elim h [ ]
requested→named k (m ∷ ms) h = elim (Bool-cases (m.infrastructure_ref_name == "")) [
  | inl unnamed ↦
      let (m', mem, named, e) = requested→named k ms (rw unnamed at h) in
      (m', Memᴰ.tail mem, named, e)
  | inr named ↦
      in_front k m (λ empty. absurd (ground (arith, eq_iff m.infrastructure_ref_name "")))
        (requested→named k ms) (rw named at h)
]

named→requested :
    (k : ObjectKey) (m : Machine) {ms : List Machine}
    → Memᴰ m ms
    → m.infrastructure_ref_name ≢ ""
    → k ≡ key_of m
    → Memᴰ k (machine_requests ms)
unfolding machine_requests
named→requested k m (Memᴰ.head {x = x} e) named same =
    let x_named : x.infrastructure_ref_name ≢ "" =
      λ h. named (ap (λ (y : Machine). y.infrastructure_ref_name) e ∙ h) in
    rw (ne_test _ _ x_named) (Memᴰ.head (same ∙ ap key_of e))
named→requested k m (Memᴰ.tail {x = x} h) named same =
    elim (Bool-cases (x.infrastructure_ref_name == "")) [
      | inl unnamed ↦ rw unnamed (named→requested k m h named same)
      | inr x_named ↦ rw x_named (Memᴰ.tail (named→requested k m h named same))
    ]

-- The requests are for the infrastructure objects that the machines name, each in the namespace of
-- its machine, and for nothing else: a machine that names none gives no request.
pub machine_requests_iff :
    (k : ObjectKey) (ms : List Machine) → Memᴰ k (machine_requests ms) ↔ Names k ms
machine_requests_iff k ms =
    (requested→named k ms, λ (m, mem, named, same). named→requested k m mem named same)
