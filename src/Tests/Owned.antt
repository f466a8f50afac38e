-- ===== src/Tests/Owned.antt =====
-- An update of an authentication ConfigMap in a garden with one Shoot.
use mathlib.Core.List.{Memᴰ}
use mathlib.Core.List.Memᴰ
use shoot_grafter.Base.{
  String, true, false, some, List, [], ◌∷◌, ◌&&◌, ◌==◌, ◌↔◌, ◌≡◌, ◌∙◌, refl, sym, ap, subst, inl,
  inr, arith, Bool-cases, if◌then◌else◌, text_dec,
}
use shoot_grafter.Base.Dict.{lookup, lookup-nil}
use shoot_grafter.Kube.{ok, ConfigMap, Shoot}
use shoot_grafter.Kube.Client.{Client, ListOption, in_namespace, matching_fields}
use shoot_grafter.Api.{care_instruction_label}
use shoot_grafter.ShootController.{ShootController}
use shoot_grafter.Watch.{owner_index}
use shoot_grafter.Watch.Wiring.{on_update, shoot_requests}
use shoot_grafter.Watch.Asked.{Differs}
use shoot_grafter.Watch.Owned.{IsIndexed, Configured, shoot_requests_iff}
use shoot_grafter.Tests.Clusters.{Owners, client, controller, meta_of, request, two_clusters}
use shoot_grafter.Tests.Reports.{shoot_named}
use shoot_grafter.Tests.Wiring.{plain_watches, plain-IsWatchApi}

abbrev labelled_shoot : Shoot
labelled_shoot = record (shoot_named "a") {
  meta = meta_of "garden-project" "a" (some ((care_instruction_label, "mine") ∷ []));
}

abbrev listed_for : String → String → List Shoot
listed_for namespace v =
    if namespace == "garden-project" && v == "mine" then labelled_shoot ∷ [] else []

abbrev listed : List ListOption → List Shoot
listed (in_namespace namespace ∷ matching_fields label v ∷ []) = listed_for namespace v
listed _ = []

abbrev indexed_client : Client Owners
indexed_client = record client { list_shoots = λ options w. ok (listed options) }

abbrev owning_controller : ShootController Owners
owning_controller = record controller { garden_client = indexed_client }

both :
    (namespace v : String)
    → (namespace == "garden-project" && v == "mine") ≡ true
    → (namespace ≡ "garden-project") × (v ≡ "mine")
both namespace v t = (ground arith, ground arith)

neither {ℓ} :
    {A : Type ℓ} (namespace v : String)
    → (namespace == "garden-project" && v == "mine") ≡ false
    → namespace ≡ "garden-project"
    → v ≡ "mine"
    → A
neither namespace v t e f = ground arith

mine-indexed : (s : Shoot) → s ≡ labelled_shoot → owner_index s ≡ "mine" ∷ []
unfolding owner_index lookup text_dec
mine-indexed s e = rw e refl

listed_for_Mem :
    (namespace v : String) (s : Shoot)
    → Memᴰ s (listed_for namespace v)
      ↔ (Memᴰ s (labelled_shoot ∷ []) × (s.namespace ≡ namespace) × Memᴰ v (owner_index s))
listed_for_Mem namespace v s = elim (Bool-cases (namespace == "garden-project" && v == "mine")) [
  | inl t ↦ rw t (
    λ m.
        let e = Memᴰ.eq_of_singleton m in
        (
          m,
          rw e (sym (both namespace v t).0),
          rw (mine-indexed s e) (Memᴰ.head (both namespace v t).1),
        ),
    λ (m, n, x). m,
  )
  | inr t ↦ rw t (
    λ m. elim m [ ],
    λ (m, n, x).
        let e = Memᴰ.eq_of_singleton m in
        let there = subst (Memᴰ v) (mine-indexed s e) x in
        let f = Memᴰ.eq_of_singleton there in
        let g : "garden-project" ≡ namespace = ap (λ (u : Shoot). u.namespace) (sym e) ∙ n in
        neither namespace v t (sym g) f,
  )
]

indexed_client-IsIndexed : IsIndexed indexed_client two_clusters.world (labelled_shoot ∷ [])
indexed_client-IsIndexed = record {
  found = listed_for;
  answers = λ namespace v. refl;
  finds = listed_for_Mem;
}

abbrev garden_map : String → ConfigMap
garden_map content = record {
  meta = meta_of "garden-project" "auth-mine" (some ((care_instruction_label, "mine") ∷ []));
  contents = some (("config.yaml", content) ∷ []);
}

shoot_requests_iff_example :
    Memᴰ (request "a") (
      shoot_requests plain_watches owning_controller two_clusters.world
        (on_update (garden_map "one") (garden_map "two")))
    ↔ (Differs (garden_map "one") (garden_map "two")
        × Configured (labelled_shoot ∷ []) (garden_map "two") (request "a"))
shoot_requests_iff_example =
    shoot_requests_iff plain_watches plain-IsWatchApi owning_controller two_clusters.world
      (labelled_shoot ∷ []) indexed_client-IsIndexed (garden_map "one") (garden_map "two")
      (request "a") refl refl (lookup-nil "config.yaml", tt) (lookup-nil "config.yaml", tt)
