-- ===== src/ShootController/Connected.antt =====
-- What a run of ConfigureOIDCAuthentication that succeeds leaves behind.
use shoot_grafter.Base.{
  String, Bool, true, false, some, ◌≡◌, ◌≢◌, refl, ◌∙◌, arith, inl, inr, Bool-cases, ◌==◌, is_some,
}
use shoot_grafter.Base.Dict.{lookup, entries}
use shoot_grafter.Kube.{Result, ok, err, ObjectKey, ConfigMap, Shoot}
use shoot_grafter.Kube.Exec.{pure, attempt, ◌>>=◌}
use shoot_grafter.Kube.Client.{OperationResult}
use shoot_grafter.Api.{CareInstruction, auth_config_map_label}
use shoot_grafter.ShootController.{ShootController, Run, write}
use shoot_grafter.ShootController.Keeps.{
  Keeps, Keeps-read, Keeps-write, Keeps-tried, Keeps-bind, Keeps-pure, Keeps-raise,
}
use shoot_grafter.ShootController.Ensures.{
  Ensures, Ensures-bind, Ensures-tried, Ensures-attempt-read, Ensures-pure, Ensures-raise,
  Ensures-if, Ensures-given, Ensures-attempt-write,
}
use shoot_grafter.ShootController.Auth.{
  auth_config_map_key, value_of, config_map_name, mutate_config_map, with_care_instruction_label,
  referring, needs_update, is_changed, with_auth_label, answer_or, annotate_shoot_for_reconcile,
  fetch_auth_config_map, write_config_map, label_shoot, refer_to_config_map,
  configure_oidc_authentication,
}
use shoot_grafter.ShootController.Garden.{
  IsGarden, KeepsData, Holds, IsOwned, IsSetUp, owner_of, labelled-owner, referred, owner_of-insert,
  same_contents, answered_contents,
}

module _ {W : Type 0} (r : ShootController W) (G : IsGarden r.garden_client)
    (K : KeepsData r.greenhouse_client) (named_owner : r.care_instruction.name ≢ "") where
  abbrev ci : CareInstruction
  ci = r.care_instruction

  -- The ConfigMap of Greenhouse, before the run.
  abbrev Source : ConfigMap → W → Type 0
  Source cm w =
      r.greenhouse_client.get_config_map
        (record { namespace = ci.namespace; name = ci.spec.authentication_config_map_name }) w
      ≡ ok cm

  fetched :
      (cm : ConfigMap)
      → Ensures (Source cm) (λ got _. got.contents ≡ cm.contents) (fetch_auth_config_map r)
  unfolding fetch_auth_config_map
  fetched cm =
      Ensures-bind (λ got _. got ≡ ok cm) _ _ (Ensures-attempt-read _ (λ w h. h))
        (elim [
          | err e ↦ Ensures-raise _
          | ok got ↦
              Ensures-if (is_some (lookup auth_config_map_label (entries got.labels))) _
                (attempt (write (r.greenhouse_client.patch_config_map got (with_auth_label got)))
                  >>= λ answer. pure (answer_or (with_auth_label got) answer))
                (λ _. Ensures-pure got (λ w e. same_contents got cm e))
                (λ _.
                  Ensures-bind
                    (λ answer _. (answer_or (with_auth_label got) answer).contents ≡ cm.contents) _
                    _
                    (Ensures-attempt-write
                      (r.greenhouse_client.patch_config_map got (with_auth_label got))
                      (λ w e.
                        answered_contents got _ (λ t f. K got (with_auth_label got) t w f)
                        ∙ same_contents got cm e))
                    (λ answer. Ensures-pure (answer_or (with_auth_label got) answer) (λ w e. e)))
        ])

  module _ (shoot : Shoot) (content : String) where
    abbrev key : ObjectKey
    key = record { namespace = shoot.namespace; name = config_map_name ci shoot }

    abbrev Held : W → Type 0
    Held = Holds r.garden_client key ci.name content

    mutated : (old : ConfigMap) → owner_of (mutate_config_map ci content old).labels ≡ some ci.name
    unfolding mutate_config_map
    mutated old = owner_of-insert ci.name old.labels

    held :
        {Q : W → Type 0}
        → Ensures Q (λ _. Held) (write_config_map r shoot (config_map_name ci shoot) content)
    unfolding write_config_map mutate_config_map
    held =
        Ensures-bind
          (λ (answer : Result (OperationResult × ConfigMap)) w.
            (a : OperationResult × ConfigMap) → answer ≡ ok a → Held w)
          _ _
          (Ensures-attempt-write _ (λ w _ a e.
            let (old, there) = G.stored _ (mutate_config_map ci content) w a e in
            (mutate_config_map ci content old, there, mutated old, refl)))
          (elim [
            | err e ↦ Ensures-raise _
            | ok (op, cm) ↦ Ensures-pure op (λ w h. h (op, cm) refl)
          ])

    patched : (base s : Shoot) (w : W) → Held w → Held (r.garden_client.patch_shoot base s w).1
    patched base s w (cm, there, h, d) = (cm, G.patch_leaves base s key w ∙ there, h, d)

    owned : (s : Shoot) → Ensures Held (λ t w. Held w × IsOwned ci t) (label_shoot r s)
    unfolding label_shoot
    owned s =
        Ensures-if _ _ _
          (λ _.
            Ensures-bind (λ answer w. Held w × ((t : Shoot) → answer ≡ ok t → IsOwned ci t)) _ _
              (Ensures-attempt-write
                (r.garden_client.patch_shoot s (with_care_instruction_label ci s))
                (λ w h. (
                  patched s (with_care_instruction_label ci s) w h,
                  λ t e.
                      G.patch_answers s (with_care_instruction_label ci s) t w e
                      ∙ owner_of-insert ci.name s.labels,
                )))
              (elim [
                | err e ↦ Ensures-raise _
                | ok t ↦ Ensures-pure t (λ w (h, o). (h, o t refl))
              ]))
          (λ e. Ensures-pure s (λ w h. (h, labelled-owner ci s.labels named_owner e)))

    Keeps-annotate :
        (s : Shoot) (namespace name : String)
        → Keeps
            (λ w. Held w × IsOwned ci s)
            (annotate_shoot_for_reconcile r.garden_client namespace name)
    unfolding annotate_shoot_for_reconcile
    Keeps-annotate s namespace name =
        Keeps-tried _ _ (Keeps-read _) (λ e. Keeps-raise _)
          (λ t.
            Keeps-bind _ _ (Keeps-write _ (λ w (h, o). (patched _ _ w h, o))) (λ _. Keeps-pure tt))

    set_up :
        (s : Shoot) (op : OperationResult)
        → Ensures
            (λ w. Held w × IsOwned ci s)
            (λ t w. Held w × IsSetUp ci (config_map_name ci shoot) t.1)
            (refer_to_config_map r s (config_map_name ci shoot) op)
    unfolding refer_to_config_map
    set_up s op =
        let name = config_map_name ci shoot in
        elim (Bool-cases (needs_update name s.spec.kube_api_server)) [
          | inl e ↦ rw e (
              Ensures-bind (λ answer w. Held w × ((t : Shoot) → answer ≡ ok t → IsSetUp ci name t))
                _ _
                (Ensures-attempt-write (r.garden_client.update_shoot (referring s name))
                  (λ w ((cm, there, h, d), o). (
                    (cm, G.update_leaves (referring s name) key w ∙ there, h, d),
                    λ t e.
                        let (same, refers) = G.update_answers (referring s name) t w e in
                        (same ∙ o, refers),
                  )))
                (elim [
                  | err e ↦ Ensures-raise _
                  | ok t ↦ Ensures-pure (true, t) (λ w (h, o). (h, o t refl))
                ]))
          | inr e ↦ elim (Bool-cases (is_changed op)) [
            | inl f ↦
                rw (e, f)
                  (Ensures-tried _ _ (Keeps-annotate s s.namespace s.name) (λ e. Ensures-raise _)
                    (λ _. Ensures-pure (true, s) (λ w (h, o). (h, (o, referred name _ e)))))
            | inr f ↦ rw (e, f) (Ensures-pure (false, s) (λ w (h, o). (h, (o, referred name _ e))))
          ]
        ]

  module _ (shoot : Shoot) (cm : ConfigMap) where
    abbrev content : String
    content = value_of auth_config_map_key cm.contents

    connected :
        Ensures
          (Source cm)
          (λ t w. (content ≢ "") × Held shoot content w × IsSetUp ci (config_map_name ci shoot) t.1)
          (configure_oidc_authentication r shoot)
    unfolding configure_oidc_authentication
    connected =
        Ensures-bind (λ got _. got.contents ≡ cm.contents) _ _ (fetched cm)
          (λ got. Ensures-given _ (λ same. rw same (
            Ensures-if (content == "") _ _ (λ _. Ensures-raise _)
              (λ n.
                Ensures-bind (λ _. Held shoot content) _ _ (held shoot content)
                  (λ op.
                    Ensures-bind (λ s w. Held shoot content w × IsOwned ci s) _ _
                      (owned shoot content shoot)
                      (λ s. record {
                        at = λ w t h e.
                            let (held_there, done) = (set_up shoot content s op).at w t h e in
                            (λ y. ground arith, held_there, done);
                      }))))))

  -- If CreateOrUpdate of the garden stores what the function makes of the ConfigMap, writes of
  -- Shoots leave ConfigMaps alone, answers have what was sent, the CareInstruction has a name, and
  -- Greenhouse has the ConfigMap that it names, then after a run of ConfigureOIDCAuthentication that
  -- succeeds: the content of that ConfigMap is not empty; the garden has the ConfigMap of the name
  -- that was chosen for the Shoot, labelled with the CareInstruction, and its data is this content
  -- alone; and the Shoot is labelled with the CareInstruction too and refers to that ConfigMap.
  pub configure_oidc_authentication-connected :
      (shoot : Shoot) (cm : ConfigMap) (s : Run W) (changed : Bool) (t : Shoot)
      → r.greenhouse_client.get_config_map
          (record { namespace = ci.namespace; name = ci.spec.authentication_config_map_name })
          s.world
        ≡ ok cm
      → (configure_oidc_authentication r shoot s).0 ≡ ok (changed, t)
      → (value_of auth_config_map_key cm.contents ≢ "")
        × Holds r.garden_client
            (record { namespace = shoot.namespace; name = config_map_name ci shoot })
            ci.name
            (value_of auth_config_map_key cm.contents)
            (configure_oidc_authentication r shoot s).1.world
        × IsSetUp ci (config_map_name ci shoot) t
  configure_oidc_authentication-connected shoot cm s changed t there done =
      (connected shoot cm).at s (changed, t) there done
