-- ===== src/ShootController/Labels.antt =====
-- The Secret of a Shoot after a run of the mutating function: labels, annotations and data.
use shoot_grafter.Base.{
  String, Bool, true, Option, none, some, List, [], ◌∷◌, if◌then◌else◌, ◌==◌, get_or, or_else,
  is_some, contains, ◌≡◌, refl, arith, ◌≢◌, All,
}
use shoot_grafter.Base.Dict.{
  Dict, keys, lookup, insert, entries, lookup-insert, lookup-copy, lookup-nil,
}
use shoot_grafter.Base.Commas.{IsPart}
use shoot_grafter.Kube.{Shoot, Secret}
use shoot_grafter.Api.{CareInstruction, care_instruction_label}
use shoot_grafter.ShootController.{Names}
use shoot_grafter.ShootController.SecretData.{
  add_labels, secret_labels, mutate_secret, is_workerless, managed_annotation_keys_annotation,
  tracked_keys, sorted_keys,
}
use shoot_grafter.ShootController.Annotations.{
  contains-sorted_keys, merged_entry, lookup-merge_annotations, merge_annotations_idem, additional,
  wanted_entry, merge_annotations_removes, merge_once, tracked-sorted_keys,
}

lookup-add_labels :
    (k : String) (m : Dict String) (ks : List String) (labels : Dict String)
    → lookup k (add_labels m ks labels)
      ≡ (if contains k ks then some (get_or (lookup k m) "") else lookup k labels)
unfolding add_labels
lookup-add_labels k m [] labels = refl
lookup-add_labels k m (j ∷ ks) labels = ground (
  arith,
  lookup-add_labels k m ks (insert j (get_or (lookup j m) "") labels),
  lookup-insert k j (get_or (lookup j m) "") labels,
)

-- The labels that the controller sets: its own, and the additional ones.
abbrev pub label_entry : CareInstruction → String → Option String
label_entry ci k =
    if k == care_instruction_label
    then some ci.name
    else lookup k (entries ci.spec.additional_labels)

lookup-secret_labels :
    (ci : CareInstruction) (k : String) → lookup k (secret_labels ci) ≡ label_entry ci k
unfolding secret_labels
lookup-secret_labels ci k =
    rw (lookup-insert, lookup-add_labels, contains-sorted_keys, lookup-nil) (ground arith)

-- What is relied on of Greenhouse's propagator: it copies the labels of the Shoot that the keys
-- select, and leaves all else of the Secret alone.
pub record IsLabelCopy (copy_labels : Shoot → Secret → List String → Secret)
    (selects : List String → String → Bool) : Type 0 where
  pub lookup-copy_labels :
      (shoot : Shoot) (s : Secret) (ks : List String) (k : String)
      → lookup k (entries (copy_labels shoot s ks).labels) ≡ (
          if selects ks k
          then or_else (lookup k (entries shoot.labels)) (lookup k (entries s.labels))
          else lookup k (entries s.labels))
  pub annotations-copy_labels :
      (shoot : Shoot) (s : Secret) (ks : List String)
      → (copy_labels shoot s ks).annotations ≡ s.annotations
  pub contents-copy_labels :
      (shoot : Shoot) (s : Secret) (ks : List String)
      → (copy_labels shoot s ks).contents ≡ s.contents

module _ (names : Names) (copy_labels : Shoot → Secret → List String → Secret)
    (selects : List String → String → Bool) (L : IsLabelCopy copy_labels selects)
    (ci : CareInstruction) (shoot : Shoot) (url ca : String) where
  abbrev mutated : Secret → Secret
  mutated = mutate_secret names copy_labels ci shoot url ca

  -- Under every key the Secret has the Shoot's label if the key is selected, then the label that
  -- the controller sets, then the label that was there.
  pub mutate_secret_labels :
      (s : Secret) (k : String)
      → lookup k (entries (mutated s).labels) ≡ (
          if selects ci.spec.propagate_labels k
          then or_else
              (lookup k (entries shoot.labels))
              (or_else (label_entry ci k) (lookup k (entries s.labels)))
          else or_else (label_entry ci k) (lookup k (entries s.labels)))
  unfolding mutate_secret
  mutate_secret_labels s k = rw (L.lookup-copy_labels, lookup-copy, lookup-secret_labels) refl

  annotations-mutate_secret :
      (s : Secret)
      → entries (mutated s).annotations
        ≡ merge_once names ci.spec (is_workerless shoot) url (entries s.annotations)
  unfolding mutate_secret
  annotations-mutate_secret s = rw L.annotations-copy_labels refl

  -- Under every key the Secret has: the tracking annotation, which lists the additional keys; else
  -- no workerless mark if the Shoot has workers; else what the controller wants (its own keys
  -- before the user's); else what was there, if no former run has tracked it.
  pub mutate_secret_annotations :
      (s : Secret) (k : String)
      → lookup k (entries (mutated s).annotations)
        ≡ merged_entry names ci.spec (is_workerless shoot) url (entries s.annotations) k
  mutate_secret_annotations s k =
      rw annotations-mutate_secret
        (lookup-merge_annotations names ci.spec (is_workerless shoot) url (entries s.annotations) k)

  -- The Secret holds the CA data under "ca.crt" and what it held before under every other key.
  pub mutate_secret_contents :
      (s : Secret) (k : String)
      → lookup k (entries (mutated s).contents)
        ≡ (if k == "ca.crt" then some ca else lookup k (entries s.contents))
  unfolding mutate_secret
  mutate_secret_contents s k =
      rw L.contents-copy_labels (lookup-insert k "ca.crt" ca (entries s.contents))

  -- If the keys of the additional annotations are texts that are not empty and have no comma, then
  -- the keys that a run reads from the tracking annotation are those that the run before wrote
  -- there: the additional keys in their order.
  pub tracked_keys-mutate_secret :
      (s : Secret)
      → All IsPart (keys (additional names ci.spec))
      → tracked_keys names
          (lookup managed_annotation_keys_annotation (entries (mutated s).annotations))
        ≡ sorted_keys (additional names ci.spec)
  tracked_keys-mutate_secret s parts =
      rw (annotations-mutate_secret, lookup-merge_annotations)
        (ground (arith, tracked-sorted_keys names (additional names ci.spec) parts))

  -- If the keys of the additional annotations are texts that are not empty and have no comma, the
  -- second of two runs changes no label, annotation or data of the Secret.
  pub mutate_secret_idem :
      (s : Secret) (k : String)
      → All IsPart (keys (additional names ci.spec))
      → (lookup k (entries (mutated (mutated s)).labels) ≡ lookup k (entries (mutated s).labels))
        × (lookup k (entries (mutated (mutated s)).annotations)
            ≡ lookup k (entries (mutated s).annotations))
        × (lookup k (entries (mutated (mutated s)).contents)
            ≡ lookup k (entries (mutated s).contents))
  mutate_secret_idem s k parts = (
    ground (arith, mutate_secret_labels s k, mutate_secret_labels (mutated s) k),
    rw (annotations-mutate_secret, annotations-mutate_secret)
        (merge_annotations_idem names ci.spec (is_workerless shoot) url (entries s.annotations) k
          parts),
    ground (arith, mutate_secret_contents s k, mutate_secret_contents (mutated s) k),
  )

module _ (names : Names) (copy_labels : Shoot → Secret → List String → Secret)
    (selects : List String → String → Bool) (L : IsLabelCopy copy_labels selects) where
  -- An additional annotation that one run sets is gone after a run with a specification that lacks
  -- its key, if the key is none that the controller wants for itself or tracks with, and the keys
  -- of the first run are texts that are not empty and have no comma.
  pub mutate_secret_removes :
      (before after : CareInstruction) (shoot shoot' : Shoot) (url url' ca ca' : String)
      (s : Secret) (k : String)
      → All IsPart (keys (additional names before.spec))
      → is_some (lookup k (additional names before.spec)) ≡ true
      → wanted_entry names after.spec (is_workerless shoot') url' k ≡ none
      → k ≢ managed_annotation_keys_annotation
      → lookup k (
          entries
            (mutate_secret names copy_labels after shoot' url' ca'
              (mutate_secret names copy_labels before shoot url ca s)).annotations)
        ≡ none
  mutate_secret_removes before after shoot shoot' url url' ca ca' s k parts had unwanted other =
      rw
        (
          annotations-mutate_secret names copy_labels selects L after shoot' url' ca',
          annotations-mutate_secret names copy_labels selects L before shoot url ca,
        )
        (merge_annotations_removes names before.spec after.spec _ _ url url' _ k parts had unwanted
          other)
