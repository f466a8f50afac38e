-- ===== src/ShootController/Annotations.antt =====
-- The annotations that a run of the mutating function leaves on the Secret of a Shoot.
use shoot_grafter.Base.{
  String, Bool, true, false, not, ◌&&◌, Option, none, some, List, [], ◌∷◌, if◌then◌else◌, ◌==◌,
  or_else, or_else-none, is_some, contains, ◌≡◌, refl, ◌∙◌, arith, ◌≢◌, All,
}
use shoot_grafter.Base.Dict.{
  Dict, keys, lookup, delete, entries, lookup-insert, lookup-delete, lookup-copy, lookup-nil,
  contains-keys,
}
use shoot_grafter.Base.TextOrder.{contains-sort_by, All-sort_by}
use shoot_grafter.Base.Commas.{join, IsPart, parts-join}
use shoot_grafter.Api.{CareInstructionSpec}
use shoot_grafter.ShootController.{Names}
use shoot_grafter.ShootController.SecretData.{
  managed_annotation_keys_annotation, propagate_labels_annotation, sorted_keys,
  label_keys_to_propagate, secret_annotations, delete_stale, tracked_keys, merge_annotations,
}

pub contains-sorted_keys :
    (k : String) (m : Dict String) → contains k (sorted_keys m) ≡ is_some (lookup k m)
unfolding sorted_keys
contains-sorted_keys k m = contains-sort_by k (keys m) ∙ contains-keys k m

module _ (names : Names) where
  lookup-delete_stale :
      (k : String) (wanted : Dict String) (ks : List String) (m : Dict String)
      → lookup k (delete_stale names wanted ks m)
        ≡ (if contains k ks && not (is_some (lookup k wanted)) then none else lookup k m)
  unfolding delete_stale
  lookup-delete_stale k wanted [] m = refl
  lookup-delete_stale k wanted (j ∷ ks) m = ground (
    arith,
    lookup-delete_stale k wanted ks m,
    lookup-delete_stale k wanted ks (delete j m),
    lookup-delete k j m,
  )

  -- The additional annotations of a specification.
  abbrev pub additional : CareInstructionSpec → Dict String
  additional spec = entries spec.additional_annotations

  -- What the controller wants under a key: its own keys come before the user's.
  abbrev pub wanted_entry : CareInstructionSpec → Bool → String → String → Option String
  wanted_entry spec workerless url k =
      if workerless && k == names.cluster_workerless_annotation
      then some "true"
      else if k == names.api_server_url_annotation
      then some url
      else if k == propagate_labels_annotation
      then some (join (label_keys_to_propagate spec))
      else lookup k (additional spec)

  lookup-secret_annotations :
      (spec : CareInstructionSpec) (workerless : Bool) (url k : String)
      → lookup k (secret_annotations names spec workerless url) ≡ wanted_entry spec workerless url k
  unfolding secret_annotations
  lookup-secret_annotations spec true url k =
      rw (lookup-insert, lookup-insert, lookup-insert, lookup-copy, lookup-nil, or_else-none) refl
  lookup-secret_annotations spec false url k =
      rw (lookup-insert, lookup-insert, lookup-copy, lookup-nil, or_else-none) refl

  -- What stands under a key after the merge: the tracking annotation, then the keys that are
  -- wanted, then what was there and is neither tracked nor a workerless mark of a former Shoot.
  abbrev pub merged_entry :
      CareInstructionSpec → Bool → String → Dict String → String → Option String
  merged_entry spec workerless url old k =
      if k == managed_annotation_keys_annotation
      then some (join (sorted_keys (additional spec)))
      else if not workerless && k == names.cluster_workerless_annotation
      then none
      else or_else (wanted_entry spec workerless url k) (
          if contains k (tracked_keys names (lookup managed_annotation_keys_annotation old))
          then none
          else lookup k old)

  pub lookup-merge_annotations :
      (spec : CareInstructionSpec) (workerless : Bool) (url : String) (old : Dict String)
      (k : String)
      → lookup k (
          merge_annotations names spec workerless
            (secret_annotations names spec workerless url)
            old)
        ≡ merged_entry spec workerless url old k
  unfolding merge_annotations
  lookup-merge_annotations spec true url old k =
      rw (lookup-insert, lookup-copy, lookup-delete_stale, lookup-secret_annotations) (ground arith)
  lookup-merge_annotations spec false url old k =
      rw (lookup-insert, lookup-delete, lookup-copy, lookup-delete_stale, lookup-secret_annotations)
        (ground arith)

  pub tracked-sorted_keys :
      (m : Dict String)
      → All IsPart (keys m)
      → tracked_keys names (some (join (sorted_keys m))) ≡ sorted_keys m
  unfolding sorted_keys
  tracked-sorted_keys m h = parts-join (sorted_keys m) (All-sort_by IsPart (keys m) h)

  -- The keys that a run leaves tracked are those of its additional annotations.
  tracked-merge_annotations :
      (spec : CareInstructionSpec) (workerless : Bool) (url : String) (old : Dict String)
      (k : String)
      → All IsPart (keys (additional spec))
      → contains k (
          tracked_keys names (
            lookup managed_annotation_keys_annotation (
              merge_annotations names spec workerless
                (secret_annotations names spec workerless url)
                old)))
        ≡ is_some (lookup k (additional spec))
  tracked-merge_annotations spec workerless url old k h = rw lookup-merge_annotations (
      ground
        (arith, tracked-sorted_keys (additional spec) h, contains-sorted_keys k (additional spec)))

  -- One run of the merge.
  abbrev pub merge_once : CareInstructionSpec → Bool → String → Dict String → Dict String
  merge_once spec workerless url old =
      merge_annotations names spec workerless (secret_annotations names spec workerless url) old

  -- A key of the additional annotations that the specification no longer has, and the controller
  -- does not want for itself, is gone after the next run.
  pub merge_annotations_removes :
      (before after : CareInstructionSpec) (w w' : Bool) (url url' : String) (old : Dict String)
      (k : String)
      → All IsPart (keys (additional before))
      → is_some (lookup k (additional before)) ≡ true
      → wanted_entry after w' url' k ≡ none
      → k ≢ managed_annotation_keys_annotation
      → lookup k (merge_once after w' url' (merge_once before w url old)) ≡ none
  merge_annotations_removes before after w w' url url' old k parts had unwanted other =
      lookup-merge_annotations after w' url' (merge_once before w url old) k
      ∙ ground (arith, tracked-merge_annotations before w url old k parts)

  -- A second run with the same specification changes no annotation.
  pub merge_annotations_idem :
      (spec : CareInstructionSpec) (w : Bool) (url : String) (old : Dict String) (k : String)
      → All IsPart (keys (additional spec))
      → lookup k (merge_once spec w url (merge_once spec w url old))
        ≡ lookup k (merge_once spec w url old)
  merge_annotations_idem spec w url old k parts =
      lookup-merge_annotations spec w url (merge_once spec w url old) k
      ∙ ground (
        arith,
        lookup-merge_annotations spec w url old k,
        tracked-merge_annotations spec w url old k parts,
      )
