-- ===== src/CareInstructionController/Alone.antt =====
-- What holds of the gardens and is kept by every change of the garden of one CareInstruction is
-- kept by a run for it.
use shoot_grafter.Base.{String, Bool, true, false, ◌≡◌, sym, ◌∙◌, ap, arith, inl, inr, Bool-cases}
use shoot_grafter.Kube.{ok, Result-cases}
use shoot_grafter.Kube.Exec.{◌>>=◌}
use shoot_grafter.ShootController.{read, write}
use shoot_grafter.Kube.Client.{Client}
use shoot_grafter.Kube.Conditions.{ConditionApi}
use shoot_grafter.Api.{CareInstruction, CareInstructionSpec, set_condition}
use shoot_grafter.ShootController.Keeps.{
  Keeps, Keeps-look, Keeps-read, Keeps-write, Keeps-bind, Keeps-tried, Keeps-pure, Keeps-raise,
  Keeps-if,
}
use shoot_grafter.CareInstructionController.{Fleet, State, GardenApi, garden_key}
use shoot_grafter.CareInstructionController.Gardens.{
  register, stop_existing, start, restart, remove, set_hash, set_spec,
}
use shoot_grafter.CareInstructionController.Manager.{
  prepare_manager, recreate_manager, reconcile_manager, restart_shoot_controller,
}
use shoot_grafter.Base.Dict.{MapRange}
use shoot_grafter.ShootController.Keeps.{Keeps-answered}
use shoot_grafter.CareInstructionController.Shoots.{asks_for_run, take_response, handle_annotation}
use shoot_grafter.CareInstructionController.Rules.{after_change}

-- The answer of the server to a patch has the name and the namespace of the object.
pub record IsNaming {W : Type 0} (G : GardenApi W) : Type 0 where
  pub key-patch :
      (base ci answer : CareInstruction) (w : W)
      → (G.patch_care_instruction base ci w).0 ≡ ok answer
      → garden_key answer ≡ garden_key ci

-- Every change of the garden under this key keeps the fact.
pub record IsOwn {Config C : Type 0} (key : String) (P : Fleet Config C → Type 0) : Type 0 where
  pub registered :
      (f : Fleet Config C) (spec : CareInstructionSpec) (hash : String)
      → P f
      → P (register key spec hash f)
  pub stopped : (f : Fleet Config C) → P f → P (stop_existing key f)
  pub begun :
      (f : Fleet Config C) (config : Config) (client : C) (spec : CareInstructionSpec)
      → P f
      → P (start key config client spec (stop_existing key f))
  pub restarted : (f : Fleet Config C) → P f → P (restart key f).1
  pub removed : (f : Fleet Config C) → P f → P (remove key f)
  pub hashed : (f : Fleet Config C) (hash : String) → P f → P (set_hash key hash f)
  pub respecified :
      (f : Fleet Config C) (spec : CareInstructionSpec) → P f → P (set_spec key spec f)

module _ {W : Type 0} (C : ConditionApi) (G : GardenApi W) (R : MapRange) (greenhouse : Client W)
    (N : IsNaming G) (key : String) (P : Fleet G.RestConfig (Client W) → Type 0)
    (O : IsOwn key P) where
  -- The CareInstruction at hand has this key.
  abbrev pub Own : State G.RestConfig W → Type 0
  Own st = (garden_key st.instruction ≡ key) × P st.fleet

  Keeps-recreate_manager :
      (config : G.RestConfig) (scheme : G.Scheme)
      → Keeps Own (recreate_manager C G greenhouse config scheme)
  unfolding recreate_manager set_condition ◌>>=◌ read write
  Keeps-recreate_manager config scheme = record {
    at = λ s (k, h).
        let ci = s.world.instruction in
        elim (Result-cases (prepare_manager C G greenhouse config scheme ci)) [
          | inl (client, e) ↦ rw e (k, rw k (O.begun s.world.fleet config client ci.spec h))
          | inr (f, e) ↦ rw e (k, rw k (O.stopped s.world.fleet h))
        ];
  }

  pub Keeps-reconcile_manager : Keeps Own (reconcile_manager C G greenhouse)
  unfolding reconcile_manager set_condition
  Keeps-reconcile_manager = Keeps-look _ _ (λ st ci (k, h) e.
      let it : st.instruction ≡ ci = ground arith in
      let own : garden_key ci ≡ key = ap garden_key (sym it) ∙ k in
      Keeps-bind _ _ (Keeps-read _) (λ hash. Keeps-bind _ _ (Keeps-read _) (λ known.
        Keeps-bind _ _
          (Keeps-write _ (λ st (k, h). (k, rw own (O.registered st.fleet ci.spec hash h))))
          (λ _. Keeps-bind _ _ (Keeps-write _ (λ st h. h)) (λ _.
            Keeps-tried _ _ (Keeps-read _)
              (λ e. Keeps-bind _ _ (Keeps-write _ (λ st h. h)) (λ _. Keeps-raise e))
              (λ (config, scheme). Keeps-bind _ _ (Keeps-write _ (λ st h. h)) (λ _.
                Keeps-bind _ _ (Keeps-read _) (λ current.
                  Keeps-if current _ _ (λ _. Keeps-pure tt)
                    (λ _. Keeps-recreate_manager config scheme)))))))))

  restarted-Own :
      (st : State G.RestConfig W) → Own st → Own (restart_shoot_controller C G greenhouse st)
  unfolding restart_shoot_controller
  restarted-Own st (k, h) = (
    elim (Bool-cases (restart (garden_key st.instruction) st.fleet).0) [
      | inl e ↦ rw e k
      | inr e ↦ rw e k
    ],
    rw k (O.restarted st.fleet h),
  )

  pub after_change-Own :
      (before : State G.RestConfig W)
      → Own before
      → (b : Bool) (hash : String) (st : State G.RestConfig W) → Own st
      → Own (after_change C G R greenhouse b (garden_key before.instruction) hash st)
  after_change-Own before (k, h) true hash st (l, i) =
      restarted-Own _ (l, rw k (O.hashed st.fleet hash i))
  after_change-Own before a false hash st b = b

  take_response-Own :
      (ci : CareInstruction) (st : State G.RestConfig W)
      → garden_key ci ≡ key
      → Own st
      → Own (take_response C G R greenhouse ci st)
  unfolding take_response
  take_response-Own ci st e (k, h) = elim (Bool-cases st.shares_spec) [
    | inl s ↦ (e, rw s (rw k (O.respecified st.fleet ci.spec h)))
    | inr s ↦ (e, rw s h)
  ]

  pub Keeps-handle_annotation : Keeps Own (handle_annotation C G R greenhouse)
  unfolding handle_annotation
  Keeps-handle_annotation = Keeps-look _ _ (λ st base (k, h) e.
      let it : st.instruction ≡ base = ground arith in
      let own : garden_key base ≡ key = ap garden_key (sym it) ∙ k in
      Keeps-if (asks_for_run base.meta) _ _
        (λ _. Keeps-bind _ _ (Keeps-write _ (λ st (k, h). (own, h))) (λ _.
          Keeps-answered _ _ (λ st h. h)
            (λ st response h e. Keeps-write _ (λ st h.
              restarted-Own (take_response C G R greenhouse response st)
                (take_response-Own response st (N.key-patch _ _ _ _ e ∙ own) h)))))
        (λ _. Keeps-pure tt))
