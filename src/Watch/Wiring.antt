-- ===== src/Watch/Wiring.antt =====
-- The watches that SetupWithManager of the two controllers sets up: from an event of an object to
-- the requests for runs.
use mathlib.Core.List.{Memᴰ}
use shoot_grafter.Base.{String, Bool, true, List, [], ◌&&◌, ◌↔◌, ◌⊎◌, ◌≡◌, if◌then◌else◌}
use shoot_grafter.Kube.{Result, ObjectKey, Cluster, ConfigMap, Secret}
use shoot_grafter.Api.{CareInstruction, care_instruction_label, auth_config_map_label}
use shoot_grafter.ShootController.{ShootController}
use shoot_grafter.Watch.{
  has_secret_type, has_label, was_created, was_updated, was_deleted, passes_data_changed,
  enqueue_shoots, enqueue_for_cluster, enqueue_for_garden_cluster, enqueue_for_auth_config_map,
}

pub data Event (A : Type 0) : Type 0 where
  on_create on_delete on_generic : A → Event A
  on_update : A → A → Event A

-- The object that a test of objects is about.
abbrev pub subject : {A : Type 0} → Event A → A
subject (on_create a) = a
subject (on_delete a) = a
subject (on_generic a) = a
subject (on_update old new) = new

-- The objects of an event.
abbrev pub Concerns : {A : Type 0} → (A → Type 0) → Event A → Type 0
Concerns P (on_create a) = P a
Concerns P (on_delete a) = P a
Concerns P (on_generic a) = P a
Concerns P (on_update old new) = P old ⊎ P new

-- `predicate.NewPredicateFuncs` and `handler.EnqueueRequestsFromMapFunc`
pub record WatchApi : Type 1 where
  pub new_predicate_funcs : (A : Type 0) → (A → Bool) → Event A → Bool
  pub enqueue_requests : (A : Type 0) → (A → List ObjectKey) → Event A → List ObjectKey

-- A test of objects is about the new one of an update; requests are those of the old and the new one.
pub record IsWatchApi (V : WatchApi) : Type 1 where
  pub test : (A : Type 0) (p : A → Bool) (e : Event A) → V.new_predicate_funcs A p e ≡ p (subject e)
  pub requests :
      (A : Type 0) (f : A → List ObjectKey) (e : Event A) (k : ObjectKey)
      → Memᴰ k (V.enqueue_requests A f e) ↔ Concerns (λ a. Memᴰ k (f a)) e

-- `PredicateConfigMapDataChanged` on all events: a test that is not set passes.
unfoldable pub data_changed : Event ConfigMap → Bool
unfolding passes_data_changed
data_changed (on_create cm) = passes_data_changed (was_created cm)
data_changed (on_update old new) = passes_data_changed (was_updated old new)
data_changed (on_delete cm) = passes_data_changed (was_deleted cm)
data_changed (on_generic cm) = true

module _ (V : WatchApi) where
  -- Given the answer for all CareInstructions, and the types of Secrets with a kubeconfig.
  unfoldable pub secret_requests :
      List String → Result (List CareInstruction) → Event Secret → List ObjectKey
  secret_requests types all e =
      if V.new_predicate_funcs Secret (has_secret_type types) e
      then V.enqueue_requests Secret (λ s. enqueue_for_garden_cluster s all) e
      else []

  unfoldable pub cluster_requests : Event Cluster → List ObjectKey
  cluster_requests e =
      if V.new_predicate_funcs Cluster (λ c. has_label care_instruction_label c.meta) e
      then V.enqueue_requests Cluster enqueue_for_cluster e
      else []

  -- Given the answer for the CareInstructions of each namespace.
  unfoldable pub auth_requests :
      (String → Result (List CareInstruction)) → Event ConfigMap → List ObjectKey
  unfolding data_changed
  auth_requests answer e =
      if V.new_predicate_funcs ConfigMap (λ cm. has_label auth_config_map_label cm.meta) e
        && data_changed e
      then V.enqueue_requests ConfigMap (λ cm. enqueue_for_auth_config_map cm (answer cm.namespace))
          e
      else []

  -- The watch of ConfigMaps of the shoot controller, with the state of the clusters.
  unfoldable pub shoot_requests :
      {W : Type 0} → ShootController W → W → Event ConfigMap → List ObjectKey
  unfolding data_changed
  shoot_requests r w e =
      if V.new_predicate_funcs ConfigMap (λ cm. has_label care_instruction_label cm.meta) e
        && data_changed e
      then V.enqueue_requests ConfigMap (λ cm. enqueue_shoots r cm.meta w) e
      else []
