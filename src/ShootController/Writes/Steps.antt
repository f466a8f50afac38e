-- ===== src/ShootController/Writes/Steps.antt =====
-- shoot_controller.go: what is kept by the steps of Reconcile.
use shoot_grafter.Base.{
  String, none, some, ◌≡◌, ◌∙◌, ap, ◌<>◌, inl, inr, Bool-cases, ◌||◌, is_some, ◌==◌, text_dec,
}
use text.Mathlib.Text.{find?}
use mathlib.Core.Logic.{if_pos, if_neg}
use shoot_grafter.Base.Dict.{lookup, entries}
use shoot_grafter.Kube.{Error, is_conflict, is_not_found, ObjectKey, Secret, Shoot}
use shoot_grafter.Kube.Exec.{pure, ◌>>=◌}
use shoot_grafter.Kube.Client.{OperationResult, created, updated, unchanged}
use shoot_grafter.Api.{care_instruction_label}
use shoot_grafter.ShootController.{ShootController, Externals, normal, done, emit_event}
use shoot_grafter.ShootController.Keeps.{
  Keeps, Keeps-read, Keeps-write, Keeps-emit_event, Keeps-bind, Keeps-tried, Keeps-pure,
  Keeps-raise,
}
use shoot_grafter.ShootController.SecretData.{api_server_url}
use shoot_grafter.ShootController.Auth.{value_of}
use shoot_grafter.ShootController.Reconcile.{
  Existing, foreign, absent, found, handle_deleted_shoot, report_secret, write_secret, onboard,
  reconcile_shoot, modified_text, with_existing, ignore_not_found, qualified,
}
use shoot_grafter.ShootController.Writes.{IsKept}
use shoot_grafter.ShootController.Writes.Authentication.{Keeps-configure_oidc}
use shoot_grafter.ShootController.Writes.Bindings.{Keeps-configure_rbac}

module _ {W : Type 0} (r : ShootController W) (P : W → Type 0) where
  pub Keeps-was_deleted :
      (req : ObjectKey)
      → Keeps P (
          emit_event r normal "ShootDeleted"
            ("Shoot " <> (qualified req.namespace req.name <> " was deleted"))
          >>= λ _. pure done)
  Keeps-was_deleted req = Keeps-bind _ _ (Keeps-emit_event r _ _ _) (λ _. Keeps-pure done)

  pub Keeps-ignore_not_found : (e : Error) → Keeps P (ignore_not_found e)
  Keeps-ignore_not_found e = elim (Bool-cases (is_not_found e)) [
    | inl b ↦ rw b (Keeps-pure done)
    | inr b ↦ rw b (Keeps-raise e)
  ]

module _ {W : Type 0} (X : Externals W) (r : ShootController W) (P : W → Type 0)
    (K : IsKept X r P) where
  Keeps-report_secret :
      (shoot : Shoot) (url : String) (op : OperationResult) (secret : Secret)
      → Keeps P (report_secret X r shoot url op secret)
  unfolding report_secret
  Keeps-report_secret shoot url created secret = Keeps-emit_event r _ _ _
  Keeps-report_secret shoot url updated secret = Keeps-emit_event r _ _ _
  Keeps-report_secret shoot url unchanged secret = Keeps-pure tt

  Keeps-write_secret : (shoot : Shoot) (url ca : String) → Keeps P (write_secret X r shoot url ca)
  unfolding write_secret
  Keeps-write_secret shoot url ca =
      Keeps-tried _ _ (Keeps-write _ (K.write_secret shoot url ca))
        (λ e. elim (Bool-cases (is_conflict e || is_some (find? e.message modified_text))) [
          | inl b ↦ rw b (Keeps-pure _)
          | inr b ↦ rw b (Keeps-bind _ _ (Keeps-emit_event r _ _ _) (λ _. Keeps-raise e))
        ])
        (λ (op, secret). Keeps-bind _ _ (Keeps-report_secret shoot url op secret) (λ _.
          Keeps-bind _ _ (Keeps-configure_oidc X r P K shoot)
            (λ s. Keeps-configure_rbac X r P K s)))

  Keeps-onboard : (shoot : Shoot) (url : String) → Keeps P (onboard X r shoot url)
  unfolding onboard
  Keeps-onboard shoot url =
      Keeps-tried _ _ (Keeps-read _)
        (λ e. Keeps-bind _ _ (Keeps-emit_event r _ _ _) (λ _. Keeps-raise e))
        (λ cm. elim (Bool-cases (value_of "ca.crt" cm.contents == "")) [
          | inl b ↦ rw b (Keeps-bind _ _ (Keeps-emit_event r _ _ _) (λ _. Keeps-pure _))
          | inr b ↦ rw b (Keeps-write_secret shoot url _)
        ])

  Keeps-reconcile_shoot : (shoot : Shoot) → Keeps P (reconcile_shoot X r shoot)
  unfolding reconcile_shoot
  Keeps-reconcile_shoot shoot =
      elim (Bool-cases (api_server_url "" shoot.advertised_addresses == "")) [
        | inl b ↦ rw b (Keeps-bind _ _ (Keeps-emit_event r _ _ _) (λ _. Keeps-pure _))
        | inr b ↦ rw b (Keeps-onboard shoot _)
      ]

  -- The Cluster that was found is labelled as the request says.
  abbrev pub IsLabelled : Existing → Type 0
  IsLabelled foreign = Unit
  IsLabelled absent = Unit
  IsLabelled (found c owner) = lookup care_instruction_label (entries c.labels) ≡ owner

  Keeps-handle_deleted_shoot :
      (req : ObjectKey) (existing : Existing)
      → IsLabelled existing
      → Keeps P (handle_deleted_shoot X r req existing)
  unfolding handle_deleted_shoot
  Keeps-handle_deleted_shoot req foreign l = Keeps-was_deleted r P req
  Keeps-handle_deleted_shoot req absent l = Keeps-was_deleted r P req
  Keeps-handle_deleted_shoot req (found c none) l = Keeps-was_deleted r P req
  Keeps-handle_deleted_shoot req (found c (some owner)) l =
      elim (text_dec owner r.care_instruction.name) [
        | yes e ↦ rw (if_pos _ e) (
            Keeps-tried _ _ (Keeps-write _ (K.delete_own c (l ∙ ap some e)))
              (λ f. Keeps-bind _ _ (Keeps-emit_event r _ _ _) (λ _. Keeps-ignore_not_found r P f))
              (λ _. Keeps-bind _ _ (Keeps-emit_event r _ _ _) (λ _. Keeps-was_deleted r P req)))
        | no n ↦ rw (if_neg _ n) (Keeps-was_deleted r P req)
      ]

  pub Keeps-with_existing :
      (req : ObjectKey) (existing : Existing)
      → IsLabelled existing
      → Keeps P (with_existing X r req existing)
  unfolding with_existing
  Keeps-with_existing req existing l =
      Keeps-tried _ _ (Keeps-read _)
        (λ e. elim (Bool-cases (is_not_found e)) [
          | inl b ↦ rw b (Keeps-handle_deleted_shoot req existing l)
          | inr b ↦ rw b (Keeps-raise e)
        ])
        (λ shoot. Keeps-reconcile_shoot shoot)
