-- ===== src/Watch/Requests.antt =====
-- Which CareInstructions an event of a Secret or of a ConfigMap leads to.
use mathlib.Core.List.{Memᴰ}
use shoot_grafter.Base.{
  String, Bool, true, List, [], ◌∷◌, ◌≡◌, ◌↔◌, refl, sym, ◌∙◌, ap, arith, ◌==◌, Bool-cases, inl,
  inr, subst,
}
use shoot_grafter.Kube.{ok, ObjectKey, ConfigMap, Secret}
use shoot_grafter.Api.{CareInstruction}
use shoot_grafter.Watch.{
  key_of, requests_for, enqueue_for_garden_cluster, enqueue_for_auth_config_map,
}

-- One of these CareInstructions passes the test and has this key.
abbrev pub Asks : (CareInstruction → Type 0) → List CareInstruction → ObjectKey → Type 0
Asks P items k = (ci : CareInstruction) × Memᴰ ci items × P ci × (key_of ci.meta ≡ k)

first-Asks :
    (P : CareInstruction → Type 0) (ci : CareInstruction) (items : List CareInstruction)
    (k : ObjectKey) (rest : List ObjectKey)
    → P ci
    → (Memᴰ k rest → Asks P items k)
    → Memᴰ k (key_of ci.meta ∷ rest)
    → Asks P (ci ∷ items) k
first-Asks P ci items k rest y later (Memᴰ.head e) = (ci, Memᴰ.head refl, y, sym e)
first-Asks P ci items k rest y later (Memᴰ.tail m) =
    let (d, there, z, f) = later m in (d, Memᴰ.tail there, z, f)

request-Asks :
    (p : CareInstruction → Bool) (items : List CareInstruction) (k : ObjectKey)
    → Memᴰ k (requests_for p (ok items))
    → Asks (λ ci. p ci ≡ true) items k
request-Asks p [] k h = elim h [ ]
request-Asks p (ci ∷ items) k h = elim (Bool-cases (p ci)) [
  | inl t ↦
      first-Asks (λ c. p c ≡ true) ci items k (requests_for p (ok items)) t (request-Asks p items k)
        (subst (Memᴰ k) (rw t refl) h)
  | inr n ↦
      let (d, there, z, f) = request-Asks p items k (subst (Memᴰ k) (rw n refl) h) in
      (d, Memᴰ.tail there, z, f)
]

Asks-request :
    (p : CareInstruction → Bool) (items : List CareInstruction) (k : ObjectKey)
    → (ci : CareInstruction) → Memᴰ ci items
    → p ci ≡ true
    → key_of ci.meta ≡ k
    → Memᴰ k (requests_for p (ok items))
Asks-request p [] k ci m t f = elim m [ ]
Asks-request p (d ∷ items) k ci (Memᴰ.head e) t f =
    rw (ap p (sym e) ∙ t) (Memᴰ.head (sym f ∙ ap (λ c. key_of c.meta) e))
Asks-request p (d ∷ items) k ci (Memᴰ.tail m) t f = elim (Bool-cases (p d)) [
  | inl y ↦ rw y (Memᴰ.tail (Asks-request p items k ci m t f))
  | inr n ↦ rw n (Asks-request p items k ci m t f)
]

tested : (s t : String) → ((s == t) ≡ true) ↔ (s ≡ t)
tested s t = (λ e. ground arith, λ e. ground arith)

Asks-iff :
    (f : CareInstruction → String) (name : String) (items : List CareInstruction) (k : ObjectKey)
    → Memᴰ k (requests_for (λ ci. f ci == name) (ok items)) ↔ Asks (λ ci. f ci ≡ name) items k
Asks-iff f name items k = (
  λ h.
      let (ci, there, t, e) = request-Asks (λ ci. f ci == name) items k h in
      (ci, there, (tested (f ci) name).0 t, e),
  λ (ci, there, t, e).
      Asks-request (λ ci. f ci == name) items k ci there ((tested (f ci) name).1 t) e,
)

-- Given the CareInstructions that are listed, a change of a Secret leads to a run for exactly those
-- whose garden Cluster bears the name of the Secret, and a change of a ConfigMap to a run for
-- exactly those that name it as their authentication ConfigMap.
pub enqueue_iff :
    (secret : Secret) (cm : ConfigMap) (items : List CareInstruction) (k : ObjectKey)
    → (Memᴰ k (enqueue_for_garden_cluster secret (ok items))
        ↔ Asks (λ ci. ci.spec.garden_cluster_name ≡ secret.name) items k)
      × (Memᴰ k (enqueue_for_auth_config_map cm (ok items))
          ↔ Asks (λ ci. ci.spec.authentication_config_map_name ≡ cm.name) items k)
unfolding enqueue_for_garden_cluster enqueue_for_auth_config_map
enqueue_iff secret cm items k = (
  Asks-iff (λ ci. ci.spec.garden_cluster_name) secret.name items k,
  Asks-iff (λ ci. ci.spec.authentication_config_map_name) cm.name items k,
)
