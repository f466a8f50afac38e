-- ===== src/ShootController/Auth.antt =====
-- controller/shoot/auth.go, and AnnotateShootForReconcile of shoot_controller.go.
use shoot_grafter.Base.{
  String, ◌<>◌, Bool, true, false, Option, none, some, [], ◌∷◌, if◌then◌else◌, ◌==◌, ◌!=◌, get_or,
  is_some,
}
use shoot_grafter.Base.Dict.{Dict, lookup, insert, entries}
use shoot_grafter.Kube.{
  Result, ok, err, new_error, wrap, ConfigMap, Shoot, KubeApiServer, StructuredAuthentication,
}
use shoot_grafter.Kube.Exec.{Exec, pure, raise, attempt, ◌>>=◌}
use shoot_grafter.Kube.Client.{Client, OperationResult, unchanged}
use shoot_grafter.Api.{CareInstruction, care_instruction_label, auth_config_map_label}
use shoot_grafter.ShootController.{ShootController, Run, read, write}

-- `authConfigMapKey` and `authConfigMapManagedByAnnotation`
abbrev pub auth_config_map_key : String
auth_config_map_key = "config.yaml"

abbrev pub auth_config_map_managed_by_annotation : String
auth_config_map_managed_by_annotation = "shoot-grafter.cloudoperators.dev/managed-by"

abbrev pub managed_by_text : String
managed_by_text = "shoot-grafter - do not edit by hand, this is maintained by automation"

-- The annotation that makes Gardener reconcile a Shoot.
abbrev pub with_operation : Shoot → Shoot
with_operation s = record s {
  meta = record (s.meta) {
    annotations = some (insert "gardener.cloud/operation" "reconcile" (entries s.annotations));
  };
}

-- `AnnotateShootForReconcile`
unfoldable pub annotate_shoot_for_reconcile :
    {W : Type 0} → Client W → String → String → Exec (Run W) (Unit {0})
annotate_shoot_for_reconcile garden namespace name = do
  got ← attempt (read (garden.get_shoot (record { namespace = namespace; name = name })))
  elim got [
    | err e ↦ raise (wrap ("failed to get Shoot " <> (namespace <> ("/" <> name))) e)
    | ok s ↦ write (garden.patch_shoot s (with_operation s)) >>= λ _. pure tt
  ]

abbrev pub with_auth_label : ConfigMap → ConfigMap
with_auth_label cm = record cm {
  meta = record (cm.meta) {
    labels = some (insert auth_config_map_label "true" (entries cm.labels));
  };
}

-- What `Patch` leaves in the object: the server's answer, or the object as it was sent.
abbrev pub answer_or {ℓ} : {A : Type ℓ} → A → Result A → A
answer_or a (ok b) = b
answer_or a (err _) = a

-- The value of a key, or "".
abbrev pub value_of : String → Option (Dict String) → String
value_of k m = get_or (lookup k (entries m)) ""

-- The ConfigMap that the Shoot refers to, or "".
abbrev pub structured_name : Option StructuredAuthentication → String
structured_name none = ""
structured_name (some a) = a.config_map_name

abbrev pub auth_name : Option KubeApiServer → String
auth_name none = ""
auth_name (some server) = structured_name server.structured_authentication

-- `configMapName`
unfoldable pub config_map_name : CareInstruction → Shoot → String
config_map_name ci shoot =
    if auth_name shoot.spec.kube_api_server != ""
    then auth_name shoot.spec.kube_api_server
    else ci.name <> "-greenhouse-auth"

-- The function that `CreateOrUpdate` applies to the ConfigMap of the garden. It replaces the data,
-- as the comments of auth.go, the architecture and the user guide say; the comment on the field
-- authenticationConfigMapName in api/v1alpha1/careinstruction_types.go speaks of a merge instead.
unfoldable pub mutate_config_map : CareInstruction → String → ConfigMap → ConfigMap
mutate_config_map ci content cm = record cm {
  meta = record (cm.meta) {
    labels = some (insert care_instruction_label ci.name (entries cm.labels));
    annotations =
        some
          (insert auth_config_map_managed_by_annotation managed_by_text (entries cm.annotations));
  };
  contents = some ((auth_config_map_key, content) ∷ []);
}

-- `shoot.Labels == nil || shoot.Labels[label] != name`
abbrev pub needs_label : CareInstruction → Option (Dict String) → Bool
needs_label ci none = true
needs_label ci (some m) = get_or (lookup care_instruction_label m) "" != ci.name

abbrev pub with_care_instruction_label : CareInstruction → Shoot → Shoot
with_care_instruction_label ci shoot = record shoot {
  meta = record (shoot.meta) {
    labels = some (insert care_instruction_label ci.name (entries shoot.labels));
  };
}

-- The Shoot with the reference in its spec, and whether that is a change.
abbrev pub referring : Shoot → String → Shoot
referring shoot name = record shoot {
  spec = record (shoot.spec) {
    kube_api_server =
        some (record { structured_authentication = some (record { config_map_name = name }) });
  };
}

abbrev pub structured_needs_update : String → Option StructuredAuthentication → Bool
structured_needs_update name none = true
structured_needs_update name (some a) = a.config_map_name != name

abbrev pub needs_update : String → Option KubeApiServer → Bool
needs_update name none = true
needs_update name (some server) = structured_needs_update name server.structured_authentication

abbrev pub is_changed : OperationResult → Bool
is_changed unchanged = false
is_changed _ = true

module _ {W : Type 0} (r : ShootController W) where
  abbrev auth_map : String
  auth_map = r.care_instruction.spec.authentication_config_map_name

  -- The ConfigMap of Greenhouse, with its watch label; an error of the patch is only logged.
  unfoldable pub fetch_auth_config_map : Exec (Run W) ConfigMap
  fetch_auth_config_map = do
    got ← attempt (
        read (
          r.greenhouse_client.get_config_map
            (record { namespace = r.care_instruction.namespace; name = auth_map })))
    elim got [
      | err e ↦ raise (
          wrap
            ("failed to fetch AuthenticationConfiguration ConfigMap "
              <> (auth_map <> " from Greenhouse cluster"))
            e)
      | ok cm ↦
          if is_some (lookup auth_config_map_label (entries cm.labels))
          then pure cm
          else (attempt (write (r.greenhouse_client.patch_config_map cm (with_auth_label cm)))
              >>= λ answer. pure (answer_or (with_auth_label cm) answer))
    ]

  -- Writes the content to the garden, verbatim.
  unfoldable pub write_config_map : Shoot → String → String → Exec (Run W) OperationResult
  write_config_map shoot name content = do
    result ← attempt (
        write (
          r.garden_client.create_or_update_config_map
            (record {
              meta = record {
                name = name;
                namespace = shoot.namespace;
                labels = none;
                annotations = none;
              };
              contents = none;
            })
            (mutate_config_map r.care_instruction content)))
    elim result [
      | err e ↦ raise (wrap "failed to create/update AuthenticationConfiguration ConfigMap" e)
      | ok (op, _) ↦ pure op
    ]

  -- The Shoot carries the label of its CareInstruction.
  unfoldable pub label_shoot : Shoot → Exec (Run W) Shoot
  label_shoot shoot =
      if needs_label r.care_instruction shoot.labels
      then (attempt (
            write (
              r.garden_client.patch_shoot shoot
                (with_care_instruction_label r.care_instruction shoot)))
          >>= λ answer. elim answer [
            | err e ↦ raise (wrap "failed to patch careinstruction label on Shoot" e)
            | ok s ↦ pure s
          ])
      else pure shoot

  -- The Shoot's spec refers to the ConfigMap; the result says whether anything has changed.
  unfoldable pub refer_to_config_map :
      Shoot → String → OperationResult → Exec (Run W) (Bool × Shoot)
  refer_to_config_map shoot name op =
      if needs_update name shoot.spec.kube_api_server
      then (attempt (write (r.garden_client.update_shoot (referring shoot name))) >>= λ answer.
          elim answer [
            | err e ↦
                raise (
                  wrap "failed to update Shoot spec with OIDC authentication ConfigMap reference" e)
            | ok s ↦ pure (true, s)
          ])
      else if is_changed op
      then (attempt (annotate_shoot_for_reconcile r.garden_client shoot.namespace shoot.name)
          >>= λ answer. elim answer [
            | err e ↦ raise (wrap "failed to annotate Shoot for reconciliation" e)
            | ok _ ↦ pure (true, shoot)
          ])
      else pure (false, shoot)

  -- `ConfigureOIDCAuthentication`
  unfoldable pub configure_oidc_authentication : Shoot → Exec (Run W) (Bool × Shoot)
  configure_oidc_authentication shoot = do
    cm ← fetch_auth_config_map
    let content = value_of auth_config_map_key cm.contents
    if content == ""
        then raise (
            new_error (
              "AuthenticationConfiguration ConfigMap "
              <> (auth_map <> (" does not contain " <> (auth_config_map_key <> " key")))))
        else (write_config_map shoot (config_map_name r.care_instruction shoot) content >>= λ op.
            label_shoot shoot >>= λ labelled.
            refer_to_config_map labelled (config_map_name r.care_instruction shoot) op)
