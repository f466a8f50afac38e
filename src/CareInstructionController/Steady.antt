-- ===== src/CareInstructionController/Steady.antt =====
-- A manager that was set up is left alone.
use shoot_grafter.Base.{
  ℕ, String, true, false, some, ◌≡◌, ◌≢◌, refl, ap, ◌∙◌, inl, inr, Option-cases, is_some, arith,
}
use text.Mathlib.TextEquality.{eq_iff}
use shoot_grafter.Base.Dict.{lookup, lookup-insert}
use shoot_grafter.Kube.{ok, Condition}
use shoot_grafter.Kube.Client.{Client}
use shoot_grafter.Kube.Conditions.{ConditionApi, IsLawful, condition_true}
use shoot_grafter.Api.{
  CareInstruction, CareInstructionSpec, set_condition, shoot_controller_started_condition,
  garden_cluster_access_ready,
}
use shoot_grafter.CareInstructionController.{Garden, State, GardenApi, garden_key}
use shoot_grafter.CareInstructionController.Gardens.{has, started, start}
use shoot_grafter.CareInstructionController.Access.{get_garden_cluster_access}
use shoot_grafter.CareInstructionController.Manager.{is_current}
use shoot_grafter.CareInstructionController.Known.{IsKnown, next-is_open}

started-ne-access : shoot_controller_started_condition ≢ garden_cluster_access_ready
started-ne-access =
    ground (arith, eq_iff shoot_controller_started_condition garden_cluster_access_ready)

-- `reflect.DeepEqual` of a value that holds no function with itself.
pub record IsReflexive {W : Type 0} (G : GardenApi W) : Type 0 where
  pub same_config-refl : (c : G.RestConfig) → G.same_config (some c) (some c) ≡ true
  pub same_spec-refl : (s : CareInstructionSpec) → G.same_spec s s ≡ true

module _ {W : Type 0} (C : ConditionApi) (L : IsLawful C) (G : GardenApi W) (D : IsReflexive G)
    (greenhouse : Client W) where
  abbrev HasStarted : CareInstruction → Type 0
  HasStarted c =
      C.is_true (C.get_condition_by_type c.status.conditions shoot_controller_started_condition)
      ≡ true

  -- The same CareInstruction, up to its status.
  abbrev pub SameUpToStatus : CareInstruction → CareInstruction → Type 0
  SameUpToStatus ci c = c ≡ record ci { status = c.status }

  -- The state after a run that succeeded.
  pub record IsSettled (ci : CareInstruction) (w : W) (st : State G.RestConfig W) : Type 0 where
    pub same : SameUpToStatus ci st.instruction
    pub clusters : st.clusters ≡ w
    pub config : G.RestConfig
    pub scheme : G.Scheme
    pub access : get_garden_cluster_access C G greenhouse ci w ≡ ok (config, scheme)
    pub garden : Garden G.RestConfig (Client W)
    pub is_there : lookup (garden_key ci) st.fleet.gardens ≡ some garden
    pub current : is_current C G greenhouse config st ≡ true

  pub set_condition-SameUpToStatus :
      (ci c : CareInstruction) (condition : Condition)
      → SameUpToStatus ci c
      → SameUpToStatus ci (set_condition C c condition)
  unfolding set_condition
  set_condition-SameUpToStatus ci c condition e = ap (λ x. set_condition C x condition) e

  -- The condition of the access does not touch that of the shoot controller.
  pub access_ready-current :
      (config : G.RestConfig) (st : State G.RestConfig W) (r m : String)
      → is_current C G greenhouse config st ≡ true
      → is_current C G greenhouse config (record st {
        instruction =
            set_condition C st.instruction (C.true_condition garden_cluster_access_ready r m);
      })
        ≡ true
  unfolding is_current set_condition
  access_ready-current config st r m e =
      let same : C.get_condition_by_type
            (C.set_condition (C.true_condition garden_cluster_access_ready r m)
              st.instruction.status.conditions)
            shoot_controller_started_condition
          ≡ C.get_condition_by_type st.instruction.status.conditions
              shoot_controller_started_condition =
        rw (L.true_condition_lem, L.get-set) (ground (arith, started-ne-access)) in
      elim (Option-cases (lookup (garden_key st.instruction) st.fleet.gardens)) [
        | inl n ↦ ground (arith, n)
        | inr (g, l) ↦ rw (l, same) (ground (arith, l))
      ]

  pub access-same :
      (ci c : CareInstruction) (w : W)
      → SameUpToStatus ci c
      → get_garden_cluster_access C G greenhouse c w ≡ get_garden_cluster_access C G greenhouse ci w
  unfolding get_garden_cluster_access
  access-same ci c w e = ap (λ x. get_garden_cluster_access C G greenhouse x w) e

  abbrev pub Starting : CareInstruction → W → State G.RestConfig W → Type 0
  Starting ci w st =
      SameUpToStatus ci st.instruction × (st.clusters ≡ w) × IsKnown (garden_key ci) st.fleet

  pub key-same : (ci c : CareInstruction) → SameUpToStatus ci c → garden_key c ≡ garden_key ci
  key-same ci c e = ap garden_key e

  is_current-some :
      (config : G.RestConfig) (st : State G.RestConfig W) (g : Garden G.RestConfig (Client W))
      (n : ℕ)
      → lookup (garden_key st.instruction) st.fleet.gardens ≡ some g
      → is_some g.mgr ≡ true
      → HasStarted st.instruction
      → G.same_config g.garden_config (some config) ≡ true
      → G.same_spec g.care_instruction_spec st.instruction.spec ≡ true
      → g.stop_chan ≡ some n
      → has n st.fleet.closed ≡ false
      → is_current C G greenhouse config st ≡ true
  unfolding is_current
  is_current-some config st g n l m h c sp ch o = rw (is_current, l, m, h, c, sp, ch, o) refl

  -- A manager that has just been started is current.
  pub started-IsSettled :
      (ci : CareInstruction) (w : W) (config : G.RestConfig) (scheme : G.Scheme) (client : Client W)
      (st : State G.RestConfig W)
      → get_garden_cluster_access C G greenhouse ci w ≡ ok (config, scheme)
      → Starting ci w st
      → IsSettled ci w (record st {
        fleet = start (garden_key ci) config client ci.spec st.fleet;
        shares_spec = true;
        instruction =
            set_condition C st.instruction
              (C.true_condition shoot_controller_started_condition "Started" "");
      })
  unfolding set_condition start
  started-IsSettled ci w config scheme client st access (same, k, known) =
      let g = started config client ci.spec st.fleet.next known.garden in
      let there : lookup (garden_key ci)
            (start (garden_key ci) config client ci.spec st.fleet).gardens
          ≡ some g =
        rw (start, known.is_there)
          (ground (arith, lookup-insert (garden_key ci) (garden_key ci) g st.fleet.gardens)) in
      let opened : has st.fleet.next (start (garden_key ci) config client ci.spec st.fleet).closed
          ≡ false =
        rw (start, known.is_there) (next-is_open st.fleet known.sound) in
      let has_it : C.is_true (
            C.get_condition_by_type
              (C.set_condition (C.true_condition shoot_controller_started_condition "Started" "")
                st.instruction.status.conditions)
              shoot_controller_started_condition)
          ≡ true =
        rw (L.true_condition_lem, L.get-set)
          (ground (
            arith,
            L.is_true_iff (record {
              type = shoot_controller_started_condition;
              status = condition_true;
              reason = "Started";
              message = "";
            }),
          )) in
      record {
        same = set_condition-SameUpToStatus ci st.instruction _ same;
        clusters = k;
        config = config;
        scheme = scheme;
        access = access;
        garden = g;
        is_there = there;
        current =
            is_current-some config _ g st.fleet.next
              (ap (λ x. lookup x (start (garden_key ci) config client ci.spec st.fleet).gardens)
                  (key-same ci st.instruction same)
                ∙ there)
              refl has_it (D.same_config-refl config)
              (ap (λ x. G.same_spec ci.spec x.spec) same ∙ D.same_spec-refl ci.spec) refl opened;
      }
