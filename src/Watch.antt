-- ===== src/Watch.antt =====
-- internal/clientutil/predicates.go, and the request mappings of the controllers: which events
-- lead to a run of Reconcile.
pub mod Noise
pub mod Changes
pub mod SetUp
pub mod Selects
pub mod Requests
pub mod Wiring
pub mod Asked
pub mod Owned
use shoot_grafter.Base.{
  ℕ, String, ◌<>◌, Bool, true, false, not, ◌&&◌, ◌||◌, Option, none, some, List, [], ◌∷◌, map,
  if◌then◌else◌, ◌==◌, ◌!=◌, text_dec, is_some, nat_eq, get_or, select, contains,
}
use shoot_grafter.Base.Dict.{Dict, GoMap, lookup, entries}
use shoot_grafter.Base.MapsEqual.{maps_equal}
use shoot_grafter.Kube.{
  Result, ok, err, ObjectKey, ObjectMeta, Cluster, ConfigMap, Secret, Shoot, ShootSpec,
  AdvertisedAddress,
}
use shoot_grafter.Kube.Exec.{Exec, pure, attempt, ◌>>=◌}
use shoot_grafter.Kube.Client.{Client, in_namespace, matching_fields}
use shoot_grafter.Api.{CareInstruction, care_instruction_label, matches_cel_filter}
use shoot_grafter.ShootController.{ShootController, Externals, Run, warning, emit_event}

-- `apiequality.Semantic.DeepEqual`, at the types that it is used for.
pub record Semantic : Type 0 where
  pub same_spec : ShootSpec → ShootSpec → Bool
  pub same_map : GoMap String → GoMap String → Bool
  pub same_addresses : List AdvertisedAddress → List AdvertisedAddress → Bool

-- `PredicateFilterBySecretTypes`, on a Secret
unfoldable pub has_secret_type : List String → Secret → Bool
has_secret_type types secret = contains secret.type types

-- `PredicateHasLabel`
unfoldable pub has_label : String → ObjectMeta → Bool
has_label key meta = is_some (lookup key (entries meta.labels))

-- An event of a watch, with the old object where there is one.
pub data ConfigMapEvent : Type 0 where
  was_created : ConfigMap → ConfigMapEvent
  was_updated : ConfigMap → ConfigMap → ConfigMapEvent
  was_deleted : ConfigMap → ConfigMapEvent

-- `PredicateConfigMapDataChanged` (its GenericFunc is not set, so generic events pass)
unfoldable pub passes_data_changed : ConfigMapEvent → Bool
unfolding maps_equal
passes_data_changed (was_created _) = true
passes_data_changed (was_updated old new) =
    not (maps_equal (entries old.contents) (entries new.contents))
passes_data_changed (was_deleted _) = false

-- The state of a last operation that may be missing.
abbrev pub state_of : Option String → String
state_of state = get_or state ""

-- `PredicateShootStatusNoise`, on an update of the first Shoot to the second
unfoldable pub passes_status_noise : Semantic → Shoot → Shoot → Bool
passes_status_noise E old new =
    if not (nat_eq old.generation new.generation)
      || not (E.same_spec old.spec new.spec)
      || not (E.same_map old.labels new.labels)
      || not (E.same_map old.annotations new.annotations)
    then true
    else if not (E.same_addresses old.advertised_addresses new.advertised_addresses)
    then true
    else if state_of old.last_operation_state != state_of new.last_operation_state
    then true
    else false

-- `matchesCEL`: an error counts as no match, with an event.
unfoldable pub matches_cel :
    {W : Type 0} → Externals W → ShootController W → Shoot → Exec (Run W) Bool
matches_cel X r shoot = elim (matches_cel_filter X.evaluate_cel r.care_instruction shoot) [
  | ok b ↦ pure b
  | err e ↦
      emit_event r warning "CELFilterError" (
        "CEL filter evaluation failed for shoot "
        <> (shoot.namespace <> ("/" <> (shoot.name <> (": " <> e.message)))))
      >>= λ _. pure false
]

abbrev pub key_of : ObjectMeta → ObjectKey
key_of meta = record { namespace = meta.namespace; name = meta.name }

abbrev pub requests_of : Result (List Shoot) → List ObjectKey
requests_of (err e) = []
requests_of (ok shoots) = map (λ s. key_of s.meta) shoots

-- `EnqueueShoots`
unfoldable pub enqueue_shoots : {W : Type 0} → ShootController W → ObjectMeta → W → List ObjectKey
enqueue_shoots r meta w = requests_of (
    r.garden_client.list_shoots
      (in_namespace meta.namespace
        ∷ matching_fields care_instruction_label
            (get_or (lookup care_instruction_label (entries meta.labels)) "")
        ∷ [])
      w)

-- The index that `reconcileManager` adds for the lookups of `EnqueueShoots`: the owner label.
unfoldable pub owner_index : Shoot → List String
owner_index s =
    let v = get_or (lookup care_instruction_label (entries s.labels)) "" in
    if v != "" then v ∷ [] else []

-- `enqueueCareInstructionForCreatedClusters`
unfoldable pub enqueue_for_cluster : Cluster → List ObjectKey
enqueue_for_cluster cluster = elim (lookup care_instruction_label (entries cluster.labels)) [
  | none ↦ []
  | some name ↦ record { namespace = cluster.namespace; name = name } ∷ []
]

abbrev pub requests_for : (CareInstruction → Bool) → Result (List CareInstruction) → List ObjectKey
requests_for p (err e) = []
requests_for p (ok items) = map (λ ci. key_of ci.meta) (select p items)

-- `enqueueCareInstructionForGardenCluster`, given the answer for all CareInstructions
unfoldable pub enqueue_for_garden_cluster : Secret → Result (List CareInstruction) → List ObjectKey
enqueue_for_garden_cluster secret = requests_for (λ ci. ci.spec.garden_cluster_name == secret.name)

-- `enqueueCareInstructionForAuthConfigMap`, given the answer for those of its namespace
unfoldable pub enqueue_for_auth_config_map :
    ConfigMap → Result (List CareInstruction) → List ObjectKey
enqueue_for_auth_config_map cm =
    requests_for (λ ci. ci.spec.authentication_config_map_name == cm.name)
