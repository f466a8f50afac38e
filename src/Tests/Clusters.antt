-- ===== src/Tests/Clusters.antt =====
-- Clusters as a map from the name of a Greenhouse Cluster to its owner label, and a garden without
-- Shoots.
use mathlib.Core.Logic.{if_pos, if_neg}
use text.Mathlib.TextEquality.{eq_iff}
use shoot_grafter.Base.{
  String, true, Option, none, some, List, [], ◌∷◌, ◌≡◌, refl, sym, ap, ◌∙◌, ◌==◌, text_dec,
  if◌then◌else◌, arith,
}
use shoot_grafter.Base.Dict.{Dict, lookup, delete, lookup-delete, entries}
use shoot_grafter.Kube.{not_found, Result, ok, err, ObjectMeta, ObjectKey, Cluster, Secret, Shoot}
use shoot_grafter.Kube.Client.{Client, created}
use shoot_grafter.Api.{CareInstruction, CareInstructionSpec, care_instruction_label}
use shoot_grafter.ShootController.{ShootController, Externals, Names, Run}
use shoot_grafter.ShootController.Writes.{IsKept}

abbrev pub Owners : Type 0
Owners = Dict String

abbrev pub missing {ℓ} : {A : Type ℓ} → Result A
missing = err (record { reason = not_found; message = "not found" })

abbrev pub meta_of : String → String → Option (Dict String) → ObjectMeta
meta_of namespace name labels = record {
  name = name;
  namespace = namespace;
  labels = labels;
  annotations = none;
}

abbrev pub cluster_of_owner : String → String → Cluster
cluster_of_owner name owner = record {
  meta = meta_of "greenhouse" name (some ((care_instruction_label, owner) ∷ []));
  conditions = [];
}

abbrev found_cluster : String → Option String → Result Cluster
found_cluster name none = missing
found_cluster name (some owner) = ok (cluster_of_owner name owner)

-- Deletes a Cluster with its owner label.
abbrev delete_with : String → Option String → Option String → Owners → Owners
delete_with name none there w = w
delete_with name (some owner) none w = w
delete_with name (some owner) (some there) w = if owner == there then delete name w else w

abbrev pub client : Client Owners
client = record {
  get_cluster = λ key w. found_cluster key.name (lookup key.name w);
  get_config_map = λ key w. missing;
  get_secret = λ key w. missing;
  get_shoot = λ key w. missing;
  get_cluster_role_binding = λ name w. missing;
  list_shoots = λ options w. ok [];
  list_clusters = λ options w. ok [];
  delete_cluster = λ c w. (
    ok tt,
    delete_with c.name (lookup care_instruction_label (entries c.labels)) (lookup c.name w) w,
  );
  delete_cluster_role_binding = λ b w. (missing, w);
  patch_config_map = λ base cm w. (ok cm, w);
  patch_shoot = λ base s w. (ok s, w);
  patch_cluster = λ base c w. (ok c, w);
  update_shoot = λ s w. (ok s, w);
  create_or_update_secret = λ s f w. (ok (created, f s), w);
  create_or_update_config_map = λ cm f w. (ok (created, f cm), w);
  create_or_update_cluster_role_binding = λ b f w. (ok (created, f b), w);
}

abbrev pub names : Names
names = record {
  api_server_url_annotation = "greenhouse.sap/api-server-url";
  cluster_workerless_annotation = "greenhouse.sap/workerless";
  secret_type_oidc_config = "greenhouse.sap/oidc";
}

abbrev pub copy_none : Shoot → Secret → List String → Secret
copy_none shoot secret ks = secret

abbrev pub externals : Externals Owners
externals = record {
  names = names;
  encode_base64 = λ text. text;
  copy_labels = copy_none;
  evaluate_cel = λ expression shoot. ok true;
  access = record {
    ClientConfig = String;
    RestConfig = String;
    Scheme = Unit {0};
    create_admin_kubeconfig = λ shoot seconds w. (ok "kubeconfig", w);
    new_client_config = λ text. ok text;
    client_config = λ text. ok text;
    new_scheme = tt;
    add_core = λ scheme. ok scheme;
    add_rbac = λ scheme. ok scheme;
    new_client = λ config scheme. ok client;
  };
}

abbrev pub spec : CareInstructionSpec
spec = record {
  garden_cluster_kube_config_secret_name = record { name = "garden"; key = "kubeconfig" };
  garden_cluster_name = "garden";
  garden_namespace = "garden-project";
  shoot_selector = none;
  propagate_labels = "region" ∷ [];
  additional_labels = some (("team", "one") ∷ []);
  additional_annotations = some (("note", "x") ∷ []);
  enable_rbac = true;
  authentication_config_map_name = "auth";
}

abbrev pub mine : CareInstruction
mine = record {
  meta = meta_of "greenhouse" "mine" none;
  spec = spec;
  status = record {
    conditions = [];
    shoots = [];
    total_target_shoots = 0;
    created_clusters = 0;
    failed_clusters = 0;
    shoot_controller_restart_count = 0;
  };
}

abbrev pub controller : ShootController Owners
controller = record {
  greenhouse_client = client;
  garden_client = client;
  name = "shoot-controller-mine";
  care_instruction = mine;
  has_event_recorder = true;
}

abbrev pub two_clusters : Run Owners
two_clusters = record { world = ("a", "mine") ∷ ("b", "other") ∷ []; events = [] }

abbrev pub request : String → ObjectKey
request name = record { namespace = "garden-project"; name = name }

-- The Cluster `b` is there and belongs to another CareInstruction.
abbrev pub HasOther : Owners → Type 0
HasOther w = lookup "b" w ≡ some "other"

absurd-owner {ℓ} : {A : Type ℓ} (owner : String) → "mine" ≡ owner → some owner ≡ some "other" → A
absurd-owner owner y e = ground (arith, eq_iff "mine" "other")

other-delete_with :
    (name : String) (there : Option String) (w : Owners)
    → lookup name w ≡ there
    → HasOther w
    → HasOther (delete_with name (some "mine") there w)
other-delete_with name none w e h = h
other-delete_with name (some owner) w e h = elim (text_dec "mine" owner) [
  | yes y ↦ rw (if_pos _ y) (
      rw lookup-delete (elim (text_dec "b" name) [
        | yes b ↦ absurd-owner owner y (sym e ∙ ap (λ n. lookup n w) (sym b) ∙ h)
        | no n ↦ rw (if_neg _ n) h
      ]))
  | no n ↦ rw (if_neg _ n) h
]

delete_own :
    (c : Cluster)
    → lookup care_instruction_label (entries c.labels) ≡ some "mine"
    → (w : Owners) → HasOther w
    → HasOther (client.delete_cluster c w).1
delete_own c l w h = rw l (other-delete_with c.name (lookup c.name w) w refl h)

pub HasOther-IsKept : IsKept externals controller HasOther
HasOther-IsKept = record {
  delete_own = delete_own;
  write_secret = λ shoot url ca w h. h;
  label_config_map = λ cm e w h. h;
  write_config_map = λ fresh content n w h. h;
  label_shoot = λ shoot w h. h;
  annotate_shoot = λ shoot w h. h;
  refer_to_config_map = λ shoot name w h. h;
  create_admin_kubeconfig = λ shoot w h. h;
  delete_binding = λ c b i e w h. ground (arith, i.is_new);
  write_binding = λ c fresh name i w h. ground (arith, i.is_new);
}
