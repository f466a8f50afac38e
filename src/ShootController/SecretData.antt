-- ===== src/ShootController/SecretData.antt =====
-- shoot_controller.go: what Reconcile puts into the Secret of a Shoot.
use shoot_grafter.Base.{
  String, Bool, true, false, Option, none, some, List, [], ◌∷◌, ◌++◌, if◌then◌else◌, ◌==◌, get_or,
  is_some,
}
use shoot_grafter.Base.Dict.{Dict, keys, lookup, insert, delete, copy, entries}
use shoot_grafter.Base.TextOrder.{sort_by}
use shoot_grafter.Base.Commas.{join, parts}
use shoot_grafter.Kube.{Shoot, Secret, AdvertisedAddress}
use shoot_grafter.Api.{CareInstruction, CareInstructionSpec, care_instruction_label}
use shoot_grafter.ShootController.{Names}

-- `managedAnnotationKeysAnnotation`
abbrev pub managed_annotation_keys_annotation : String
managed_annotation_keys_annotation = "shoot-grafter.cloudoperators.dev/managed-annotation-keys"

abbrev pub propagate_labels_annotation : String
propagate_labels_annotation = "greenhouse.sap/propagate-labels"

-- The URL of the last address that is named "external".
unfoldable pub api_server_url : String → List AdvertisedAddress → String
api_server_url url [] = url
api_server_url url (a ∷ addresses) =
    api_server_url (if a.name == "external" then a.url else url) addresses

-- `sort.Strings`
unfoldable pub sorted_keys : Dict String → List String
unfolding sort_by
sorted_keys m = sort_by (λ k. k) (keys m)

-- The loop over the additional labels, in the order of their keys.
unfoldable pub add_labels : Dict String → List String → Dict String → Dict String
add_labels additional [] labels = labels
add_labels additional (k ∷ ks) labels =
    add_labels additional ks (insert k (get_or (lookup k additional) "") labels)

unfoldable pub secret_labels : CareInstruction → Dict String
unfolding add_labels sorted_keys
secret_labels ci =
    let additional = entries ci.spec.additional_labels in
    insert care_instruction_label ci.name (add_labels additional (sorted_keys additional) [])

unfoldable pub label_keys_to_propagate : CareInstructionSpec → List String
unfolding sorted_keys
label_keys_to_propagate spec =
    spec.propagate_labels
    ++ (sorted_keys (entries spec.additional_labels) ++ (care_instruction_label ∷ []))

-- `len(workers) == 0`
abbrev pub is_empty : List String → Bool
is_empty [] = true
is_empty (_ ∷ _) = false

abbrev pub is_workerless : Shoot → Bool
is_workerless shoot = is_empty shoot.spec.workers

module _ (names : Names) where
  unfoldable pub secret_annotations : CareInstructionSpec → Bool → String → Dict String
  secret_annotations spec workerless url =
      let users = copy [] (entries spec.additional_annotations) in
      let reserved =
        insert names.api_server_url_annotation url
          (insert propagate_labels_annotation (join (label_keys_to_propagate spec)) users) in
      if workerless then insert names.cluster_workerless_annotation "true" reserved else reserved

  -- The loop over the tracked keys.
  unfoldable pub delete_stale : Dict String → List String → Dict String → Dict String
  delete_stale wanted [] annotations = annotations
  delete_stale wanted (k ∷ ks) annotations =
      delete_stale wanted ks
        (if is_some (lookup k wanted) then annotations else delete k annotations)

  -- The keys that an earlier run has tracked.
  abbrev pub tracked_keys : Option String → List String
  tracked_keys none = []
  tracked_keys (some tracked) = parts tracked

  unfoldable pub merge_annotations :
      CareInstructionSpec → Bool → Dict String → Dict String → Dict String
  merge_annotations spec workerless wanted old =
      let kept =
        delete_stale wanted (tracked_keys (lookup managed_annotation_keys_annotation old)) old in
      let merged = copy kept wanted in
      insert managed_annotation_keys_annotation
        (join (sorted_keys (entries spec.additional_annotations)))
        (if workerless then merged else delete names.cluster_workerless_annotation merged)

  -- The function that `CreateOrUpdate` applies to the Secret.
  unfoldable pub mutate_secret :
      (Shoot → Secret → List String → Secret)
      → CareInstruction
      → Shoot
      → String
      → String
      → Secret
      → Secret
  mutate_secret copy_labels ci shoot url ca secret =
      let workerless = is_workerless shoot in
      let wanted = secret_annotations ci.spec workerless url in
      copy_labels shoot
        (record secret {
          contents = some (insert "ca.crt" ca (entries secret.contents));
          meta = record (secret.meta) {
            annotations =
                some (merge_annotations ci.spec workerless wanted (entries secret.annotations));
            labels = some (copy (entries secret.labels) (secret_labels ci));
          };
        })
        ci.spec.propagate_labels
