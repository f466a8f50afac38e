-- ===== src/CareInstructionController/Shoots.antt =====
-- careinstruction_controller.go: reconcileShootsNClusters, the report on the Shoots of a
-- CareInstruction and their Clusters.
use shoot_grafter.Base.{
  ℕ, String, ◌<>◌, Bool, true, false, Option, none, some, List, [], ◌∷◌, ◌++◌, map, if◌then◌else◌,
  ◌==◌, ◌!=◌, nat_eq, get_or, length, count_if, contains,
}
use shoot_grafter.Base.Dict.{Dict, lookup, insert, delete, entries, MapRange}
use shoot_grafter.Kube.{Error, new_error, Result, ok, err, is_not_found, Shoot, Cluster, ObjectMeta}
use shoot_grafter.Kube.Exec.{Exec, pure, raise, attempt, ◌>>=◌}
use shoot_grafter.Kube.Client.{Client}
use shoot_grafter.Kube.Conditions.{ConditionApi}
use shoot_grafter.Api.{CareInstruction, CareInstructionStatus, reconcile_annotation}
use shoot_grafter.ShootController.{Run, read, write}
use shoot_grafter.ShootController.Auth.{annotate_shoot_for_reconcile}
use shoot_grafter.CareInstructionController.{Garden, State, GardenApi, garden_key}
use shoot_grafter.CareInstructionController.Gardens.{set_hash, set_spec}
use shoot_grafter.CareInstructionController.Manager.{
  Here, hash_auth_config_map, restart_shoot_controller,
}

-- A Go panic on a pointer that is nil.
abbrev pub nil_dereference : Error
nil_dereference = new_error "invalid memory address or nil pointer dereference"

-- The annotation asks for a run.
abbrev pub asks_for_run : ObjectMeta → Bool
asks_for_run meta = get_or (lookup reconcile_annotation (entries meta.annotations)) "" == "true"

abbrev without_annotation : ObjectMeta → ObjectMeta
without_annotation meta = record meta {
  annotations = some (delete reconcile_annotation (entries meta.annotations));
}

-- The Shoots that pass the filter, and the reasons why the others do not.
pub record Selection : Type 0 where
  pub included : List Shoot
  pub excluded : Dict String

abbrev pub select_shoot : Result Bool → Shoot → Selection → Selection
select_shoot (err e) s sel = record sel {
  excluded = insert s.name ("CEL evaluation failed: " <> e.message) sel.excluded;
}
select_shoot (ok false) s sel = record sel {
  excluded = insert s.name "filtered out by CEL expression" sel.excluded;
}
select_shoot (ok true) s sel = record sel { included = sel.included ++ (s ∷ []) }

-- The loop over the Shoots that were listed.
unfoldable pub select_shoots : (Shoot → Result Bool) → List Shoot → Selection → Selection
select_shoots matches [] sel = sel
select_shoots matches (s ∷ shoots) sel =
    select_shoots matches shoots (select_shoot (matches s) s sel)

abbrev pub no_selection : Selection
no_selection = record { included = []; excluded = [] }

abbrev pub cluster_names : List Cluster → List String
cluster_names clusters = map (λ c. c.name) clusters

-- The Shoots that have a Cluster of this CareInstruction.
unfoldable pub matched_owned_count : List Shoot → List Cluster → ℕ
matched_owned_count included clusters =
    count_if (λ s. contains s.name (cluster_names clusters)) included

unfoldable pub counts_match : List Shoot → List Cluster → Bool
unfolding matched_owned_count
counts_match included clusters = nat_eq (length included) (matched_owned_count included clusters)

module _ {W : Type 0} (C : ConditionApi) (G : GardenApi W) (R : MapRange)
    (greenhouse : Client W) where
  abbrev Action {ℓ} : Type ℓ → Type ℓ
  Action A = Exec (Run (Here C G greenhouse)) A

  -- A call that reads or writes the clusters.
  abbrev ask : {A : Type 0} → (W → Result A) → Action A
  ask call = read (λ st. call st.clusters)

  abbrev answer_with :
      {A : Type 0} → State G.RestConfig W → Result A × W → Result A × State G.RestConfig W
  answer_with st (r, w) = (r, record st { clusters = w })

  abbrev send : {A : Type 0} → (W → Result A × W) → Action A
  send call = write (λ st. answer_with st (call st.clusters))

  -- An action of the other controller's package.
  abbrev beside :
      {A : Type 0}
      → Run (State G.RestConfig W)
      → Result A × Run W
      → Result A × Run (State G.RestConfig W)
  beside s (r, t) =
      (r, record { world = record (s.world) { clusters = t.world }; events = t.events })

  abbrev lift : {A : Type 0} → Exec (Run W) A → Action A
  lift m s = beside s (m (record { world = s.world.clusters; events = s.events }))

  abbrev change : (State G.RestConfig W → State G.RestConfig W) → Action (Unit {0})
  change f = write (λ st. (ok tt, f st))

  abbrev with_status :
      (CareInstructionStatus → CareInstructionStatus) → State G.RestConfig W → State G.RestConfig W
  with_status f st = record st {
    instruction = record (st.instruction) { status = f st.instruction.status };
  }

  abbrev on_status : (CareInstructionStatus → CareInstructionStatus) → Action (Unit {0})
  on_status f = change (with_status f)

  -- `garden.gardenClient`
  abbrev client_in : Option (Garden G.RestConfig (Client W)) → Option (Client W)
  client_in none = none
  client_in (some g) = g.garden_client

  abbrev pub garden_client_of : State G.RestConfig W → Option (Client W)
  garden_client_of st = client_in (lookup (garden_key st.instruction) st.fleet.gardens)

  abbrev pub hash_in : Option (Garden G.RestConfig (Client W)) → String
  hash_in none = ""
  hash_in (some g) = g.auth_config_map_hash

  -- The response of a patch takes the place of the object, and so of the specification that the
  -- garden points to, if it points to that of this object.
  unfoldable pub take_response : CareInstruction → State G.RestConfig W → State G.RestConfig W
  take_response ci st = record st {
    instruction = ci;
    fleet =
        if st.shares_spec then set_spec (garden_key st.instruction) ci.spec st.fleet else st.fleet;
  }

  -- The annotation of the CareInstruction is removed, and the shoot controller is restarted.
  unfoldable pub handle_annotation : Action (Unit {0})
  handle_annotation = do
    base ← read (λ st. ok st.instruction)
    if asks_for_run base.meta
        then (let patched = record base { meta = without_annotation base.meta } in
            change (λ st. record st { instruction = patched }) >>= λ _.
            send (G.patch_care_instruction base patched) >>= λ response.
            change (λ st. restart_shoot_controller C G greenhouse (take_response response st)))
        else pure tt

  -- A list, where a resource that is not found counts as an empty one.
  abbrev pub or_empty {ℓ} : {A : Type ℓ} → Result (List A) → Result (List A)
  or_empty (ok items) = ok items
  or_empty (err e) = if is_not_found e then ok [] else err e

  -- A new content of the auth ConfigMap restarts the shoot controller.
  unfoldable pub handle_auth_change : Action (Unit {0})
  handle_auth_change = do
    ci ← read (λ st. ok st.instruction)
    if ci.spec.authentication_config_map_name == ""
        then pure tt
        else (attempt (
              ask (
                greenhouse.get_config_map (record {
                  namespace = ci.namespace;
                  name = ci.spec.authentication_config_map_name;
                })))
            >>= λ got. elim got [
              | err e ↦ if is_not_found e then pure tt else raise e
              | ok cm ↦
                  let hash = hash_auth_config_map C G greenhouse cm in
                  change (λ st.
                    if hash != hash_in (lookup (garden_key ci) st.fleet.gardens)
                    then restart_shoot_controller C G greenhouse
                        (record st { fleet = set_hash (garden_key ci) hash st.fleet })
                    else st)
            ])

  -- What became of a Cluster that asks for a run: the object as it is left, and an error.
  unfoldable pub annotate_cluster : Client W → Cluster → Action (Cluster × Option Error)
  annotate_cluster garden cluster = do
    ci ← read (λ st. ok st.instruction)
    annotated ←
        attempt (lift (annotate_shoot_for_reconcile garden ci.spec.garden_namespace cluster.name))
    elim annotated [
      | err e ↦ pure (cluster, some e)
      | ok _ ↦
          let patched = record cluster { meta = without_annotation cluster.meta } in
          attempt (send (greenhouse.patch_cluster cluster patched)) >>= λ answer. elim answer [
            | err e ↦ pure (patched, some e)
            | ok response ↦ pure (response, none)
          ]
    ]

  abbrev last_error : Option Error → Option Error → Option Error
  last_error former none = former
  last_error former (some e) = some e

  -- The loop over the Clusters, with the error of the last one that failed.
  unfoldable pub annotate_clusters :
      Client W → List Cluster → Option Error → Action (List Cluster × Option Error)
  unfolding annotate_cluster
  annotate_clusters garden [] failed = pure ([], failed)
  annotate_clusters garden (cluster ∷ clusters) failed =
      (if asks_for_run cluster.meta then annotate_cluster garden cluster else pure (cluster, none))
      >>= λ (left, e).
          annotate_clusters garden clusters (last_error failed e) >>= λ (rest, failed').
          pure (left ∷ rest, failed')
