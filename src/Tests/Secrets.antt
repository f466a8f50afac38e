-- ===== src/Tests/Secrets.antt =====
-- The Secret of a concrete Shoot.
use text.Mathlib.TextEquality.{eq_iff}
use shoot_grafter.Base.{
  String, Bool, true, Option, contains, ◌∙◌, none, some, List, [], ◌∷◌, ◌≡◌, refl, ◌≢◌, arith, ◌==◌,
  text_dec, All, or_else, if◌then◌else◌,
}
use shoot_grafter.Base.Dict.{Dict, insert, lookup-insert, keys, lookup, entries}
use shoot_grafter.Kube.{Shoot, Secret}
use shoot_grafter.Api.{CareInstruction, care_instruction_label}
use shoot_grafter.ShootController.SecretData.{
  managed_annotation_keys_annotation, mutate_secret, is_workerless, tracked_keys, sorted_keys,
  label_keys_to_propagate, propagate_labels_annotation,
}
use shoot_grafter.ShootController.Annotations.{merged_entry, additional}
use shoot_grafter.Base.TextOrder.{sort_by}
use shoot_grafter.Base.Commas.{IsPart}
use shoot_grafter.ShootController.Propagated.{listed, mutate_secret_propagates}
use shoot_grafter.ShootController.Labels.{
  IsLabelCopy, mutate_secret_annotations, mutate_secret_contents, mutate_secret_idem,
  tracked_keys-mutate_secret, mutate_secret_removes,
}
use shoot_grafter.Tests.Clusters.{mine, names, meta_of}

-- A propagator that copies the labels of the Shoot that have a selected key.
abbrev with_label : Option String → String → Dict String → Dict String
with_label none k labels = labels
with_label (some v) k labels = insert k v labels

abbrev copied : Dict String → List String → Dict String → Dict String
copied from [] labels = labels
copied from (k ∷ ks) labels = copied from ks (with_label (lookup k from) k labels)

abbrev copy_selected : Shoot → Secret → List String → Secret
copy_selected shoot s ks = record s {
  meta = record (s.meta) { labels = some (copied (entries shoot.labels) ks (entries s.labels)) };
}

abbrev is_selected : List String → String → Bool
is_selected ks k = contains k ks

lookup-with_label :
    (o : Option String) (j k : String) (labels : Dict String)
    → lookup k (with_label o j labels)
      ≡ (if k == j then or_else o (lookup k labels) else lookup k labels)
lookup-with_label none j k labels = ground arith
lookup-with_label (some v) j k labels = ground (arith, lookup-insert k j v labels)

lookup-copied :
    (from : Dict String) (ks : List String) (labels : Dict String) (k : String)
    → lookup k (copied from ks labels)
      ≡ (if contains k ks then or_else (lookup k from) (lookup k labels) else lookup k labels)
lookup-copied from [] labels k = refl
lookup-copied from (j ∷ ks) labels k =
    lookup-copied from ks (with_label (lookup j from) j labels) k
    ∙ rw (lookup-with_label) (ground arith)

copy_selected-IsLabelCopy : IsLabelCopy copy_selected is_selected
copy_selected-IsLabelCopy = record {
  lookup-copy_labels = λ shoot s ks k. lookup-copied (entries shoot.labels) ks (entries s.labels) k;
  annotations-copy_labels = λ shoot s ks. refl;
  contents-copy_labels = λ shoot s ks. refl;
}

-- A Shoot with a label that is propagated and one that is not.
abbrev shoot : Shoot
shoot = record {
  meta = meta_of "garden-project" "a" (some (("region", "eu") ∷ ("team", "two") ∷ []));
  generation = 1;
  spec = record { workers = "w" ∷ []; kube_api_server = none };
  advertised_addresses = [];
  last_operation_state = none;
}

-- A Secret with a label of another region, and with a mark of a former Shoot without workers.
abbrev secret : Secret
secret = record {
  meta = record (meta_of "greenhouse" "a" (some (("region", "us") ∷ []))) {
    annotations = some (("greenhouse.sap/workerless", "true") ∷ []);
  };
  contents = none;
  type = "greenhouse.sap/oidc";
}

abbrev note : String
note = "note"

-- The CareInstruction without its additional annotations.
abbrev plain : CareInstruction
plain = record mine { spec = record (mine.spec) { additional_annotations = none } }

abbrev onboarded : CareInstruction → Secret → Secret
onboarded ci = mutate_secret names copy_selected ci shoot "url" "ca"

note-ne-managed : note ≢ managed_annotation_keys_annotation
note-ne-managed = ground (arith, eq_iff note managed_annotation_keys_annotation)

url-ne-propagate : names.api_server_url_annotation ≢ propagate_labels_annotation
url-ne-propagate =
    ground (arith, eq_iff names.api_server_url_annotation propagate_labels_annotation)

workerless-ne-propagate : names.cluster_workerless_annotation ≢ propagate_labels_annotation
workerless-ne-propagate =
    ground (arith, eq_iff names.cluster_workerless_annotation propagate_labels_annotation)

keys-IsPart : All IsPart (label_keys_to_propagate mine.spec)
unfolding label_keys_to_propagate sorted_keys sort_by
keys-IsPart = (
  (ground (arith, eq_iff "region" ""), ground arith),
  (
    (ground (arith, eq_iff "team" ""), ground arith),
    ((ground (arith, eq_iff care_instruction_label ""), ground arith), tt),
  ),
)

mutate_secret_propagates_example :
    (contains "region" (listed (onboarded mine secret)) ≡ true)
    × (lookup "region" (entries (onboarded mine secret).labels) ≡ some "eu")
unfolding lookup text_dec
mutate_secret_propagates_example =
    mutate_secret_propagates names copy_selected is_selected copy_selected-IsLabelCopy mine shoot
      "url" "ca" secret "region" url-ne-propagate workerless-ne-propagate keys-IsPart

mutate_secret_annotations_example :
    lookup "note"
      (entries (mutate_secret names copy_selected mine shoot "url" "ca" secret).annotations)
    ≡ merged_entry names mine.spec (is_workerless shoot) "url" (entries secret.annotations) "note"
mutate_secret_annotations_example =
    mutate_secret_annotations names copy_selected is_selected copy_selected-IsLabelCopy mine shoot
      "url" "ca" secret "note"

-- The parts of the additional annotations.
note-IsPart : All IsPart (keys (additional names mine.spec))
note-IsPart = ((ground (arith, eq_iff "note" ""), ground arith), tt)

mutate_secret_contents_example :
    lookup "ca.crt"
      (entries (mutate_secret names copy_selected mine shoot "url" "ca" secret).contents)
    ≡ (if "ca.crt" == "ca.crt" then some "ca" else lookup "ca.crt" (entries secret.contents))
mutate_secret_contents_example =
    mutate_secret_contents names copy_selected is_selected copy_selected-IsLabelCopy mine shoot
      "url" "ca" secret "ca.crt"

mutate_secret_idem_example :
    (lookup "note" (entries (onboarded mine (onboarded mine secret)).labels)
      ≡ lookup "note" (entries (onboarded mine secret).labels))
    × (lookup "note" (entries (onboarded mine (onboarded mine secret)).annotations)
        ≡ lookup "note" (entries (onboarded mine secret).annotations))
    × (lookup "note" (entries (onboarded mine (onboarded mine secret)).contents)
        ≡ lookup "note" (entries (onboarded mine secret).contents))
mutate_secret_idem_example =
    mutate_secret_idem names copy_selected is_selected copy_selected-IsLabelCopy mine shoot "url"
      "ca" secret "note" note-IsPart

mutate_secret_removes_example :
    lookup "note" (entries (onboarded plain (onboarded mine secret)).annotations) ≡ none
unfolding lookup text_dec
mutate_secret_removes_example =
    mutate_secret_removes names copy_selected is_selected copy_selected-IsLabelCopy mine plain shoot
      shoot "url" "url" "ca" "ca" secret "note" note-IsPart refl refl note-ne-managed

tracked_keys-mutate_secret_example :
    tracked_keys names
      (lookup managed_annotation_keys_annotation (entries (onboarded mine secret).annotations))
    ≡ sorted_keys (additional names mine.spec)
tracked_keys-mutate_secret_example =
    tracked_keys-mutate_secret names copy_selected is_selected copy_selected-IsLabelCopy mine shoot
      "url" "ca" secret note-IsPart
