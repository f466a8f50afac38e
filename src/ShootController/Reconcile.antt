-- ===== src/ShootController/Reconcile.antt =====
-- shoot_controller.go: Reconcile, step by step.
use text.Mathlib.Text.{find?}
use shoot_grafter.Base.{
  String, ◌<>◌, Bool, true, false, ◌||◌, Option, none, some, [], ◌∷◌, if◌then◌else◌, ◌==◌, ◌!=◌,
  is_some,
}
use shoot_grafter.Base.Dict.{lookup, entries}
use shoot_grafter.Kube.{
  Error, ok, err, is_not_found, is_conflict, ObjectKey, Cluster, Secret, Shoot,
}
use shoot_grafter.Kube.Exec.{Exec, pure, raise, attempt, ◌>>=◌}
use shoot_grafter.Kube.Client.{OperationResult, created, updated, unchanged}
use shoot_grafter.Api.{CareInstruction, care_instruction_label}
use shoot_grafter.ShootController.{
  ShootController, Externals, Run, CtrlResult, done, read, write, emit_event, normal, warning,
}
use shoot_grafter.ShootController.SecretData.{
  api_server_url, is_workerless, secret_annotations, secret_labels, mutate_secret,
}
use shoot_grafter.ShootController.Auth.{value_of, configure_oidc_authentication}
use shoot_grafter.ShootController.Rbac.{set_rbac}
use shoot_grafter.ShootController.Access.{get_shoot_cluster_client}

-- What the first request finds: a Cluster of another CareInstruction, no Cluster, or one that this
-- CareInstruction may use, with its owner label.
pub data Existing : Type 0 where
  foreign absent : Existing
  found : Cluster → Option String → Existing

-- `shootCACMSuffix`
abbrev pub shoot_ca_cm_suffix : String
shoot_ca_cm_suffix = ".ca-cluster"

abbrev pub modified_text : String
modified_text = "the object has been modified"

abbrev pub qualified : String → String → String
qualified namespace name = namespace <> ("/" <> name)

-- The error that `client.IgnoreNotFound` lets through.
abbrev pub ignore_not_found {ℓ} : {S : Type ℓ} → Error → Exec S CtrlResult
ignore_not_found e = if is_not_found e then pure done else raise e

module _ {W : Type 0} (X : Externals W) (r : ShootController W) where
  abbrev ci : CareInstruction
  ci = r.care_instruction

  unfoldable pub existing_cluster : ObjectKey → Exec (Run W) Existing
  existing_cluster req = do
    got ← attempt (
        read
          (r.greenhouse_client.get_cluster (record { namespace = ci.namespace; name = req.name })))
    elim got [
      | err e ↦ if is_not_found e then pure absent else raise e
      | ok c ↦ elim (lookup care_instruction_label (entries c.labels)) [
        | none ↦ pure (found c none)
        | some owner ↦ if owner != ci.name then pure foreign else pure (found c (some owner))
      ]
    ]

  -- The Shoot is gone: its Cluster is deleted if it is labelled as this CareInstruction's.
  unfoldable pub handle_deleted_shoot : ObjectKey → Existing → Exec (Run W) CtrlResult
  handle_deleted_shoot req existing =
      let was_deleted : Exec (Run W) CtrlResult =
        emit_event r normal "ShootDeleted"
          ("Shoot " <> (qualified req.namespace req.name <> " was deleted"))
        >>= λ _. pure done in
      elim existing [
        | foreign ↦ was_deleted
        | absent ↦ was_deleted
        | found c none ↦ was_deleted
        | found c (some owner) ↦
            if owner == ci.name
            then (attempt (write (r.greenhouse_client.delete_cluster c)) >>= λ answer. elim answer [
              | err e ↦
                  emit_event r warning "ClusterDeletionFailed" (
                    "Shoot "
                    <> (qualified ci.namespace c.name
                        <> (" deleted, deletion of Cluster "
                            <> (qualified c.namespace c.name
                                <> (" failed with error: " <> e.message)))))
                  >>= λ _. ignore_not_found e
              | ok _ ↦
                  emit_event r normal "ClusterDeleted" (
                    "Shoot "
                    <> (qualified ci.namespace c.name
                        <> (" deleted, deletion of Cluster "
                            <> (qualified c.namespace c.name <> " was requested"))))
                  >>= λ _. was_deleted
            ])
            else was_deleted
      ]

  -- An event for a change.
  unfoldable pub report_oidc : Bool → Shoot → Exec (Run W) (Unit {0})
  report_oidc true shoot = emit_event r normal "OIDCConfigured" (
      "Successfully configured OIDC authentication for shoot "
      <> qualified shoot.namespace shoot.name)
  report_oidc false shoot = pure tt

  -- OIDC authentication, if the CareInstruction names a ConfigMap.
  unfoldable pub configure_oidc : Shoot → Exec (Run W) Shoot
  configure_oidc shoot =
      if ci.spec.authentication_config_map_name != ""
      then (attempt (configure_oidc_authentication r shoot) >>= λ answer. elim answer [
        | err e ↦
            emit_event r warning "OIDCConfigurationFailed" (
              "Failed to configure OIDC authentication for shoot "
              <> (qualified shoot.namespace shoot.name <> (": " <> e.message)))
            >>= λ _. raise e
        | ok (changed, s) ↦ report_oidc changed s >>= λ _. pure s
      ])
      else pure shoot

  -- RBAC, if the CareInstruction enables it.
  unfoldable pub configure_rbac : Shoot → Exec (Run W) CtrlResult
  configure_rbac shoot =
      if ci.spec.enable_rbac
      then (attempt (get_shoot_cluster_client X.access shoot) >>= λ answer. elim answer [
        | err e ↦
            emit_event r warning "ShootClientFetchFailed" (
              "Failed to get Shoot cluster client for shoot "
              <> (qualified shoot.namespace shoot.name <> (": " <> e.message)))
            >>= λ _. raise e
        | ok shoot_client ↦ set_rbac r shoot_client shoot.name >>= λ _. pure done
      ])
      else pure done

  -- An event for what became of the Secret.
  unfoldable pub report_secret : Shoot → String → OperationResult → Secret → Exec (Run W) (Unit {0})
  report_secret shoot url op secret =
      let text : String =
        secret.name
        <> (" for shoot "
            <> (qualified shoot.namespace shoot.name <> (" with API server URL " <> url))) in
      elim op [
        | created ↦ emit_event r normal "SecretCreated" ("Created Greenhouse secret " <> text)
        | updated ↦ emit_event r normal "SecretUpdated" ("Updated Greenhouse secret " <> text)
        | unchanged ↦ pure tt
      ]

  -- The Secret as it is handed to `CreateOrUpdate`.
  unfoldable pub new_secret : Shoot → String → String → Secret
  new_secret shoot url ca = record {
    meta = record {
      name = shoot.name;
      namespace = ci.namespace;
      labels = some (secret_labels ci);
      annotations = some (secret_annotations X.names ci.spec (is_workerless shoot) url);
    };
    contents = some (("ca.crt", ca) ∷ []);
    type = X.names.secret_type_oidc_config;
  }

  unfoldable pub write_secret : Shoot → String → String → Exec (Run W) CtrlResult
  write_secret shoot url ca = do
    result ← attempt (
        write (
          r.greenhouse_client.create_or_update_secret (new_secret shoot url ca)
            (mutate_secret X.names X.copy_labels ci shoot url ca)))
    elim result [
      | err e ↦
          if is_conflict e || is_some (find? e.message modified_text)
          then pure (record { requeue_after = 5 })
          else (emit_event r warning "SecretOperationFailed" (
                "Failed to create or update secret for shoot "
                <> (qualified shoot.namespace shoot.name <> (": " <> e.message)))
              >>= λ _. raise e)
      | ok (op, secret) ↦ report_secret shoot url op secret >>= λ _.
          configure_oidc shoot >>= λ configured. configure_rbac configured
    ]

  -- From the CA data of the Shoot on.
  unfoldable pub onboard : Shoot → String → Exec (Run W) CtrlResult
  onboard shoot url = do
    got ← attempt (
        read (
          r.garden_client.get_config_map
            (record { namespace = shoot.namespace; name = shoot.name <> shoot_ca_cm_suffix })))
    elim got [
      | err e ↦
          emit_event r warning "CAConfigMapFetchFailed" (
            "Failed to fetch CA ConfigMap for shoot "
            <> (qualified shoot.namespace shoot.name <> (": " <> e.message)))
          >>= λ _. raise e
      | ok cm ↦
          let ca = value_of "ca.crt" cm.contents in
          if ca == ""
          then (emit_event r warning "CADataMissing" (
                "No CA data found in ConfigMap "
                <> (cm.name <> (" for shoot " <> qualified shoot.namespace shoot.name)))
              >>= λ _. pure done)
          else write_secret shoot url (X.encode_base64 ca)
    ]

  -- From the API server URL of the Shoot on.
  unfoldable pub reconcile_shoot : Shoot → Exec (Run W) CtrlResult
  reconcile_shoot shoot =
      let url = api_server_url "" shoot.advertised_addresses in
      if url == ""
      then (emit_event r warning "APIServerURLMissing"
            ("No external API server URL found for shoot " <> qualified shoot.namespace shoot.name)
          >>= λ _. pure done)
      else onboard shoot url

  unfoldable pub with_existing : ObjectKey → Existing → Exec (Run W) CtrlResult
  with_existing req existing = do
    got ← attempt (read (r.garden_client.get_shoot req))
    elim got [
      | err e ↦ if is_not_found e then handle_deleted_shoot req existing else raise e
      | ok shoot ↦ reconcile_shoot shoot
    ]

  unfoldable pub reconcile : ObjectKey → Exec (Run W) CtrlResult
  reconcile req = do
    existing ← existing_cluster req
    elim existing [ foreign ↦ pure done | other ↦ with_existing req other ]
