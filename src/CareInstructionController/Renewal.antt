-- ===== src/CareInstructionController/Renewal.antt =====
-- The auth ConfigMap: when the shoot controller is restarted.
use shoot_grafter.Base.{
  ℕ, ◌+◌, String, Bool, true, false, none, some, ◌≡◌, ◌≢◌, refl, ap, arith, ◌==◌, ◌!=◌, inl, inr,
  Bool-cases,
}
use shoot_grafter.Base.Dict.{lookup, insert, lookup-insert, MapRange}
use shoot_grafter.Kube.{ok, ConfigMap}
use shoot_grafter.Kube.Exec.{◌>>=◌, attempt, pure}
use shoot_grafter.Kube.Client.{Client}
use shoot_grafter.Kube.Conditions.{ConditionApi}
use shoot_grafter.ShootController.{Run, read, write}
use shoot_grafter.CareInstructionController.{Garden, State, GardenApi, garden_key}
use shoot_grafter.CareInstructionController.Gardens.{has, set_hash, restart, restart-some}
use shoot_grafter.CareInstructionController.Manager.{hash_auth_config_map, restart_shoot_controller}
use shoot_grafter.CareInstructionController.Lives.{restarts}
use shoot_grafter.CareInstructionController.Rules.{after_change}
use shoot_grafter.CareInstructionController.Shoots.{handle_auth_change, hash_in}
use shoot_grafter.CareInstructionController.Sound.{IsSound}

module _ {W : Type 0} (C : ConditionApi) (G : GardenApi W) (R : MapRange)
    (greenhouse : Client W) where
  -- The CareInstruction names a ConfigMap, and this is what the cluster answers.
  pub record HasAuth (st : State G.RestConfig W) (cm : ConfigMap) : Type 0 where
    pub is_named : st.instruction.spec.authentication_config_map_name ≢ ""
    pub answer :
        greenhouse.get_config_map
          (record {
            namespace = st.instruction.namespace;
            name = st.instruction.spec.authentication_config_map_name;
          })
          st.clusters
        ≡ ok cm

  abbrev pub key_here : State G.RestConfig W → String
  key_here st = garden_key st.instruction

  abbrev pub hash_here : State G.RestConfig W → String
  hash_here st = hash_in C G R greenhouse (lookup (key_here st) st.fleet.gardens)

  pub handle_auth_change-HasAuth :
      (s : Run (State G.RestConfig W)) (cm : ConfigMap)
      → HasAuth s.world cm
      → handle_auth_change C G R greenhouse s ≡ (
        ok tt,
        record s {
          world =
              after_change C G R greenhouse
                (hash_auth_config_map C G greenhouse cm != hash_here s.world)
                (key_here s.world)
                (hash_auth_config_map C G greenhouse cm)
                s.world;
        },
      )
  unfolding handle_auth_change ◌>>=◌ attempt read write pure
  handle_auth_change-HasAuth s cm h =
      let named : (s.world.instruction.spec.authentication_config_map_name == "") ≡ false =
        ground (arith, h.is_named) in
      rw (named, h.answer) refl

  -- The garden after a change of the content, and where nothing changed.
  abbrev pub Renewed :
      Bool
      → String
      → Garden G.RestConfig (Client W)
      → ℕ
      → State G.RestConfig W
      → State G.RestConfig W
      → Type 0
  Renewed true hash g n before after =
      (lookup (key_here before) after.fleet.gardens
        ≡ some (record g { auth_config_map_hash = hash; mgr = none }))
      × (has n after.fleet.cancelled ≡ true)
      × (restarts C G greenhouse after ≡ 1 + restarts C G greenhouse before)
  Renewed false hash g n before after = after ≡ before

  module _ (st : State G.RestConfig W) (cm : ConfigMap) (g : Garden G.RestConfig (Client W)) (n : ℕ)
      (S : IsSound st.fleet) (there : lookup (garden_key st.instruction) st.fleet.gardens ≡ some g)
      (runs : g.mgr ≡ some n) where
    after_change-Renewed :
        (b : Bool) (hash : String)
        → Renewed b hash g n st
            (after_change C G R greenhouse b (garden_key st.instruction) hash st)
    unfolding set_hash restart_shoot_controller
    after_change-Renewed false hash = refl
    after_change-Renewed true hash =
        let key = garden_key st.instruction in
        let new : Garden G.RestConfig (Client W) = record g { auth_config_map_hash = hash } in
        let halted : Garden G.RestConfig (Client W) = record new { mgr = none } in
        let changed = record (st.fleet) { gardens = insert key new st.fleet.gardens } in
        let e : set_hash key hash st.fleet ≡ changed = rw (set_hash, there) refl in
        let l : lookup key changed.gardens ≡ some new =
          ground (arith, lookup-insert key key new st.fleet.gardens) in
        let own = S.own key g n there runs in
        rw e (
          rw (restart-some key changed new n l own, runs)
            (
              ground (arith, lookup-insert key key halted (insert key new st.fleet.gardens)),
              ground arith,
              refl,
            ))

  -- The same content leads to no restart.
  pub same_hash :
      (s : Run (State G.RestConfig W)) (cm : ConfigMap)
      → HasAuth s.world cm
      → hash_here s.world ≡ hash_auth_config_map C G greenhouse cm
      → (handle_auth_change C G R greenhouse s).1.world ≡ s.world
  same_hash s cm h e =
      let b : (hash_auth_config_map C G greenhouse cm != hash_here s.world) ≡ false =
        ground arith in
      rw (handle_auth_change-HasAuth s cm h) (rw b refl)

  changed-HasAuth :
      (st : State G.RestConfig W) (cm : ConfigMap) (b : Bool) (key hash : String)
      → HasAuth st cm
      → HasAuth (after_change C G R greenhouse b key hash st) cm
        × (key_here (after_change C G R greenhouse b key hash st) ≡ key_here st)
  unfolding restart_shoot_controller
  changed-HasAuth st cm false key hash h = (h, refl)
  changed-HasAuth st cm true key hash h =
      elim (Bool-cases (restart (garden_key st.instruction) (set_hash key hash st.fleet)).0) [
        | inl e ↦ rw e (record { is_named = h.is_named; answer = h.answer }, refl)
        | inr e ↦ rw e (record { is_named = h.is_named; answer = h.answer }, refl)
      ]

  Renewed-hash :
      (b : Bool) (hash : String) (g : Garden G.RestConfig (Client W)) (n : ℕ)
      (before after : State G.RestConfig W)
      → lookup (key_here before) before.fleet.gardens ≡ some g
      → b ≡ (hash != g.auth_config_map_hash)
      → key_here after ≡ key_here before
      → Renewed b hash g n before after
      → hash_here after ≡ hash
  Renewed-hash true hash g n before after l e k r = rw (k, r.0) refl
  Renewed-hash false hash g n before after l e k r =
      rw (ap key_here r, ap (λ (st : State G.RestConfig W). st.fleet.gardens) r, l) (ground arith)

  -- If the gardens are sound, the one of the CareInstruction has a manager, and the ConfigMap that it
  -- names can be read: if the hash of its content differs from that of the garden, the manager is
  -- cancelled and the restart counted, and the garden has the new hash and no manager; if it is the
  -- same, nothing changes. A second look at the same content changes nothing.
  pub handle_auth_change_lem :
      (s : Run (State G.RestConfig W)) (cm : ConfigMap) (g : Garden G.RestConfig (Client W)) (n : ℕ)
      → IsSound s.world.fleet
      → HasAuth s.world cm
      → lookup (garden_key s.world.instruction) s.world.fleet.gardens ≡ some g
      → g.mgr ≡ some n
      → Renewed
          (hash_auth_config_map C G greenhouse cm != g.auth_config_map_hash)
          (hash_auth_config_map C G greenhouse cm)
          g
          n
          s.world
          (handle_auth_change C G R greenhouse s).1.world
        × ((handle_auth_change C G R greenhouse (handle_auth_change C G R greenhouse s).1).1.world
            ≡ (handle_auth_change C G R greenhouse s).1.world)
  handle_auth_change_lem s cm g n S h l m =
      let hash = hash_auth_config_map C G greenhouse cm in
      let b = hash != g.auth_config_map_hash in
      let after = after_change C G R greenhouse b (garden_key s.world.instruction) hash s.world in
      let e : handle_auth_change C G R greenhouse s ≡ (ok tt, record s { world = after }) =
        rw (handle_auth_change-HasAuth s cm h) (rw l refl) in
      let r = after_change-Renewed s.world cm g n S l m b hash in
      let (h', k) = changed-HasAuth s.world cm b (garden_key s.world.instruction) hash h in
      rw e (
        r,
        same_hash (record s { world = after }) cm h'
            (Renewed-hash b hash g n s.world after l refl k r),
      )
