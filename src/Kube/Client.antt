-- ===== src/Kube/Client.antt =====
-- The client of a cluster, over the state `W` of all clusters: an interface with the calls that
-- the controllers make. A write returns the object that the server answers with.
use shoot_grafter.Base.{String, List}
use shoot_grafter.Kube.{Result, ObjectKey, Cluster, ConfigMap, Secret, Shoot, LabelSelector}

-- `controllerutil.OperationResult`
pub data OperationResult : Type 0 where
  created updated unchanged : OperationResult

pub record RoleRef : Type 0 where
  pub api_group : String
  pub kind : String
  pub name : String

pub record Subject : Type 0 where
  pub kind : String
  pub api_group : String
  pub name : String

pub record ClusterRoleBinding : Type 0 where
  pub name : String
  pub subjects : List Subject
  pub role_ref : RoleRef

-- `client.ListOption`
pub data ListOption : Type 0 where
  in_namespace : String → ListOption
  matching_labels : String → String → ListOption
  matching_fields : String → String → ListOption
  matching_labels_selector : LabelSelector → ListOption

pub record Client (W : Type 0) : Type 0 where
  pub get_cluster : ObjectKey → W → Result Cluster
  pub get_config_map : ObjectKey → W → Result ConfigMap
  pub get_secret : ObjectKey → W → Result Secret
  pub get_shoot : ObjectKey → W → Result Shoot
  pub get_cluster_role_binding : String → W → Result ClusterRoleBinding
  pub list_shoots : List ListOption → W → Result (List Shoot)
  pub list_clusters : List ListOption → W → Result (List Cluster)
  pub delete_cluster : Cluster → W → Result (Unit {0}) × W
  pub delete_cluster_role_binding : ClusterRoleBinding → W → Result (Unit {0}) × W
  -- `Patch(ctx, obj, client.MergeFrom(base))`, of the base and the object
  pub patch_config_map : ConfigMap → ConfigMap → W → Result ConfigMap × W
  pub patch_shoot : Shoot → Shoot → W → Result Shoot × W
  pub patch_cluster : Cluster → Cluster → W → Result Cluster × W
  pub update_shoot : Shoot → W → Result Shoot × W
  -- `ctrl.CreateOrUpdate`, of the object and the function that mutates it
  pub create_or_update_secret :
      Secret → (Secret → Secret) → W → Result (OperationResult × Secret) × W
  pub create_or_update_config_map :
      ConfigMap → (ConfigMap → ConfigMap) → W → Result (OperationResult × ConfigMap) × W
  pub create_or_update_cluster_role_binding :
      ClusterRoleBinding
      → (ClusterRoleBinding → ClusterRoleBinding)
      → W
      → Result (OperationResult × ClusterRoleBinding) × W
