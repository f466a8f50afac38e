-- ===== src/ShootController/Writes/Authentication.antt =====
-- auth.go: what is kept while the authentication of a Shoot is configured.
use shoot_grafter.Base.{
  String, Bool, true, false, ◌≢◌, inl, inr, Option-cases, Bool-cases, ◌!=◌, text_dec,
}
use mathlib.Core.Logic.{if_pos, if_neg}
use shoot_grafter.Base.Dict.{lookup, entries}
use shoot_grafter.Kube.{Shoot}
use shoot_grafter.Kube.Client.{OperationResult}
use shoot_grafter.Api.{auth_config_map_label}
use shoot_grafter.ShootController.{ShootController, Externals}
use shoot_grafter.ShootController.Keeps.{
  Keeps, Keeps-read, Keeps-write, Keeps-attempt, Keeps-emit_event, Keeps-bind, Keeps-tried,
  Keeps-pure, Keeps-raise,
}
use shoot_grafter.ShootController.Auth.{
  annotate_shoot_for_reconcile, needs_label, needs_update, fetch_auth_config_map, write_config_map,
  label_shoot, refer_to_config_map, configure_oidc_authentication, value_of, auth_config_map_key,
  is_changed,
}
use shoot_grafter.ShootController.Reconcile.{configure_oidc, report_oidc}
use shoot_grafter.ShootController.Writes.{IsKept}

module _ {W : Type 0} (X : Externals W) (r : ShootController W) (P : W → Type 0)
    (K : IsKept X r P) where
  Keeps-annotate :
      (namespace name : String)
      → Keeps P (annotate_shoot_for_reconcile r.garden_client namespace name)
  unfolding annotate_shoot_for_reconcile
  Keeps-annotate namespace name =
      Keeps-tried _ _ (Keeps-read _) (λ e. Keeps-raise _)
        (λ shoot. Keeps-bind _ _ (Keeps-write _ (K.annotate_shoot shoot)) (λ _. Keeps-pure tt))

  Keeps-fetch : Keeps P (fetch_auth_config_map r)
  unfolding fetch_auth_config_map
  Keeps-fetch =
      Keeps-tried _ _ (Keeps-read _) (λ e. Keeps-raise _)
        (λ cm. elim (Option-cases (lookup auth_config_map_label (entries cm.labels))) [
          | inl e ↦ rw e (
              Keeps-bind _ _ (Keeps-attempt _ (Keeps-write _ (K.label_config_map cm e)))
                (λ _. Keeps-pure _))
          | inr (l, e) ↦ rw e (Keeps-pure cm)
        ])

  Keeps-write_config_map :
      (shoot : Shoot) (name content : String)
      → content ≢ ""
      → Keeps P (write_config_map r shoot name content)
  unfolding write_config_map
  Keeps-write_config_map shoot name content h =
      Keeps-tried _ _ (Keeps-write _ (K.write_config_map _ content h)) (λ e. Keeps-raise _)
        (λ (op, cm). Keeps-pure op)

  Keeps-label_shoot : (shoot : Shoot) → Keeps P (label_shoot r shoot)
  unfolding label_shoot
  Keeps-label_shoot shoot = elim (Bool-cases (needs_label r.care_instruction shoot.labels)) [
    | inl e ↦ rw e (
        Keeps-tried _ _ (Keeps-write _ (K.label_shoot shoot)) (λ e. Keeps-raise _)
          (λ s. Keeps-pure s))
    | inr e ↦ rw e (Keeps-pure shoot)
  ]

  Keeps-refer :
      (shoot : Shoot) (name : String) (op : OperationResult)
      → Keeps P (refer_to_config_map r shoot name op)
  unfolding refer_to_config_map
  Keeps-refer shoot name op = elim (Bool-cases (needs_update name shoot.spec.kube_api_server)) [
    | inl e ↦ rw e (
        Keeps-tried _ _ (Keeps-write _ (K.refer_to_config_map shoot name)) (λ e. Keeps-raise _)
          (λ s. Keeps-pure _))
    | inr e ↦ elim (Bool-cases (is_changed op)) [
      | inl f ↦
          rw (e, f)
            (Keeps-tried _ _ (Keeps-annotate shoot.namespace shoot.name) (λ e. Keeps-raise _)
              (λ _. Keeps-pure _))
      | inr f ↦ rw (e, f) (Keeps-pure _)
    ]
  ]

  Keeps-configure_oidc_authentication :
      (shoot : Shoot) → Keeps P (configure_oidc_authentication r shoot)
  unfolding configure_oidc_authentication
  Keeps-configure_oidc_authentication shoot = Keeps-bind _ _ Keeps-fetch (λ cm.
      elim (text_dec (value_of auth_config_map_key cm.contents) "") [
        | yes e ↦ rw (if_pos _ e) (Keeps-raise _)
        | no n ↦ rw (if_neg _ n) (
            Keeps-bind _ _ (Keeps-write_config_map shoot _ _ n) (λ op.
              Keeps-bind _ _ (Keeps-label_shoot shoot) (λ labelled. Keeps-refer labelled _ _)))
      ])

  Keeps-report_oidc : (changed : Bool) (shoot : Shoot) → Keeps P (report_oidc X r changed shoot)
  unfolding report_oidc
  Keeps-report_oidc true shoot = Keeps-emit_event r _ _ _
  Keeps-report_oidc false shoot = Keeps-pure tt

  pub Keeps-configure_oidc : (shoot : Shoot) → Keeps P (configure_oidc X r shoot)
  unfolding configure_oidc
  Keeps-configure_oidc shoot =
      elim (Bool-cases (r.care_instruction.spec.authentication_config_map_name != "")) [
        | inl e ↦ rw e (
            Keeps-tried _ _ (Keeps-configure_oidc_authentication shoot)
              (λ e. Keeps-bind _ _ (Keeps-emit_event r _ _ _) (λ _. Keeps-raise e))
              (λ (changed, s). Keeps-bind _ _ (Keeps-report_oidc changed s) (λ _. Keeps-pure s)))
        | inr e ↦ rw e (Keeps-pure shoot)
      ]
