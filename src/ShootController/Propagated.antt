-- ===== src/ShootController/Propagated.antt =====
-- The labels of the Secret that Greenhouse is told to copy to the Cluster.
use text.Mathlib.TextEquality.{eq_iff}
use shoot_grafter.Base.{
  String, Bool, ◌||◌, some, List, [], ◌∷◌, ◌++◌, if◌then◌else◌, get_or, or_else, is_some, contains,
  ◌≡◌, refl, ◌∙◌, arith, ◌≢◌, All,
}
use shoot_grafter.Base.Dict.{lookup, entries}
use shoot_grafter.Base.Commas.{IsPart, join, parts, parts-join}
use shoot_grafter.Kube.{Shoot, Secret}
use shoot_grafter.Api.{CareInstruction}
use shoot_grafter.ShootController.{Names}
use shoot_grafter.ShootController.SecretData.{
  mutate_secret, managed_annotation_keys_annotation, propagate_labels_annotation,
  label_keys_to_propagate,
}
use shoot_grafter.ShootController.Annotations.{contains-sorted_keys}
use shoot_grafter.ShootController.Labels.{
  IsLabelCopy, label_entry, mutate_secret_labels, mutate_secret_annotations,
}

-- The keys that the Secret lists for Greenhouse.
abbrev pub listed : Secret → List String
listed s = parts (get_or (lookup propagate_labels_annotation (entries s.annotations)) "")

contains-append :
    (k : String) (ks ls : List String) → contains k (ks ++ ls) ≡ (contains k ks || contains k ls)
contains-append k [] ls = refl
contains-append k (j ∷ ks) ls = ground (arith, contains-append k ks ls)

-- The controller lists the keys of the specification and those that it sets itself.
contains-label_keys :
    (ci : CareInstruction) (k : String)
    → contains k (label_keys_to_propagate ci.spec)
      ≡ (contains k ci.spec.propagate_labels || is_some (label_entry ci k))
unfolding label_keys_to_propagate
contains-label_keys ci k =
    rw (contains-append, contains-append, contains-sorted_keys) (ground arith)

propagate-ne-managed : propagate_labels_annotation ≢ managed_annotation_keys_annotation
propagate-ne-managed =
    ground (arith, eq_iff propagate_labels_annotation managed_annotation_keys_annotation)

module _ (names : Names) (copy_labels : Shoot → Secret → List String → Secret)
    (selects : List String → String → Bool) (L : IsLabelCopy copy_labels selects)
    (ci : CareInstruction) (shoot : Shoot) (url ca : String) where
  abbrev mutated : Secret → Secret
  mutated = mutate_secret names copy_labels ci shoot url ca

  -- No annotation of the controller or the user takes the place of the list.
  propagate-mutate_secret :
      (s : Secret)
      → names.api_server_url_annotation ≢ propagate_labels_annotation
      → names.cluster_workerless_annotation ≢ propagate_labels_annotation
      → lookup propagate_labels_annotation (entries (mutated s).annotations)
        ≡ some (join (label_keys_to_propagate ci.spec))
  propagate-mutate_secret s n w =
      mutate_secret_annotations names copy_labels selects L ci shoot url ca s
        propagate_labels_annotation
      ∙ ground (arith, propagate-ne-managed)

  -- If the keys to propagate are texts that are not empty and have no comma, and the annotations for
  -- the URL and for a Shoot without workers are other ones than that for the keys to propagate, then
  -- after a run that annotation, read as a list, has exactly the keys of PropagateLabels, of the
  -- additional labels, and of the owner label; and under every key the Secret has the label of the
  -- Shoot if the key is selected and the Shoot has one, else the one that the controller sets, else
  -- the one that was there.
  pub mutate_secret_propagates :
      (s : Secret) (k : String)
      → names.api_server_url_annotation ≢ propagate_labels_annotation
      → names.cluster_workerless_annotation ≢ propagate_labels_annotation
      → All IsPart (label_keys_to_propagate ci.spec)
      → (contains k (listed (mutated s))
          ≡ (contains k ci.spec.propagate_labels || is_some (label_entry ci k)))
        × (lookup k (entries (mutated s).labels) ≡ (
            if selects ci.spec.propagate_labels k
            then or_else
                (lookup k (entries shoot.labels))
                (or_else (label_entry ci k) (lookup k (entries s.labels)))
            else or_else (label_entry ci k) (lookup k (entries s.labels))))
  mutate_secret_propagates s k n w apart = (
    rw (propagate-mutate_secret s n w, parts-join (label_keys_to_propagate ci.spec) apart)
        (contains-label_keys ci k),
    mutate_secret_labels names copy_labels selects L ci shoot url ca s k,
  )
