-- ===== src/CareInstructionController/Refines.antt =====
-- The handlers implement the abstract machine of running managers.
use shoot_grafter.Base.{ℕ, String, refl, arith}
use shoot_grafter.Base.Dict.{MapRange}
use shoot_grafter.Kube.Client.{Client}
use shoot_grafter.Kube.Conditions.{ConditionApi}
use shoot_grafter.ShootController.{Run}
use shoot_grafter.CareInstructionController.{Fleet, State, GardenApi, garden_key}
use shoot_grafter.CareInstructionController.Gardens.{stop_existing, manager_stops}
use shoot_grafter.CareInstructionController.Handlers.{ensure_created, ensure_deleted}
use shoot_grafter.CareInstructionController.Sound.{IsSound}
use shoot_grafter.CareInstructionController.Sound.Starts.{
  start-IsSound, restart-IsSound, remove-IsSound,
}
use shoot_grafter.CareInstructionController.Sound.Stops.{
  register-IsSound, stop_existing-IsSound, stop_existing-IsHalted, set_hash-IsSound,
  set_spec-IsSound,
}
use shoot_grafter.CareInstructionController.Alone.{IsNaming, IsOwn, Keeps-reconcile_manager}
use shoot_grafter.CareInstructionController.Made.{
  register-IsMade, stop_existing-IsMade, start-IsMade, restart-IsMade, remove-IsMade,
  set_hash-IsMade, set_spec-IsMade,
}
use shoot_grafter.CareInstructionController.Reached.{
  IsReached, begin, turn_to, run_created, run_deleted, run_manager, run_restart, run_cleanup,
  stop_by_itself, reached-IsSound,
}
use shoot_grafter.CareInstructionController.Manager.{
  reconcile_manager, restart_shoot_controller, cleanup_care_instruction,
}
use shoot_grafter.Kube.Exec.{◌>>=◌}
use shoot_grafter.ShootController.{write}
use shoot_grafter.CareInstructionController.Owned.{
  key-initialize, Keeps-ensure_created, Keeps-ensure_deleted,
}
use shoot_grafter.CareInstructionController.Runners.{Gone, View, Moves, done, snoc, view, IsMade}
use shoot_grafter.CareInstructionController.Simulates.{
  Move-register, Move-stop_existing, Move-start, Move-restart, Move-remove, Move-set_hash,
  Move-set_spec, remove-Gone,
}

-- Sound gardens that the abstract machine reaches from this view by moves for the key.
record IsAt {Config C : Type 0} (key : String) (v : View) (f : Fleet Config C) : Type 0 where
  pub sound : IsSound f
  pub is_made : IsMade f
  pub moves : Moves key v (view f)

stopped-IsAt :
    {Config C : Type 0} (key : String) (v : View) (f : Fleet Config C)
    → IsAt key v f
    → IsAt key v (stop_existing key f)
stopped-IsAt key v f h = record {
  sound = stop_existing-IsSound key f h.sound;
  is_made = stop_existing-IsMade key f h.sound h.is_made;
  moves = snoc _ h.moves (Move-stop_existing key f h.sound h.is_made);
}

IsAt-IsOwn :
    {Config C : Type 0} (key : String) (v : View) → IsOwn {Config = Config} {C = C} key (IsAt key v)
IsAt-IsOwn key v = record {
  registered = λ f spec hash h. record {
    sound = register-IsSound key f h.sound spec hash;
    is_made = register-IsMade key f h.sound h.is_made spec hash;
    moves = snoc _ h.moves (Move-register key f h.sound h.is_made spec hash);
  };
  stopped = λ f h. stopped-IsAt key v f h;
  begun = λ f config client spec h.
      let k = stopped-IsAt key v f h in
      let g = stop_existing key f in
      let halted = stop_existing-IsHalted key f h.sound in
      record {
        sound = start-IsSound key g k.sound halted config client spec;
        is_made = start-IsMade key g k.sound k.is_made config client spec;
        moves = snoc _ k.moves (Move-start key g k.sound k.is_made halted config client spec);
      };
  restarted = λ f h. record {
    sound = restart-IsSound key f h.sound;
    is_made = restart-IsMade key f h.sound h.is_made;
    moves = snoc _ h.moves (Move-restart key f h.sound h.is_made);
  };
  removed = λ f h. record {
    sound = remove-IsSound key f h.sound;
    is_made = remove-IsMade key f h.sound h.is_made;
    moves = snoc _ h.moves (Move-remove key f h.sound h.is_made);
  };
  hashed = λ f hash h. record {
    sound = set_hash-IsSound key f h.sound hash;
    is_made = set_hash-IsMade key f h.sound h.is_made hash;
    moves = snoc _ h.moves (Move-set_hash key f h.sound h.is_made hash);
  };
  respecified = λ f spec h. record {
    sound = set_spec-IsSound key f h.sound spec;
    is_made = set_spec-IsMade key f h.sound h.is_made spec;
    moves = snoc _ h.moves (Move-set_spec key f h.sound h.is_made spec);
  };
}

stopped-IsMade :
    {Config C : Type 0} (n : ℕ) (f : Fleet Config C) → IsMade f → IsMade (manager_stops n f)
unfolding manager_stops
stopped-IsMade n f M = record { made = M.made }

module _ {W : Type 0} (C : ConditionApi) (G : GardenApi W) (greenhouse : Client W) where
  restarted-IsMade :
      (st : State G.RestConfig W)
      → IsSound st.fleet
      → IsMade st.fleet
      → IsMade (restart_shoot_controller C G greenhouse st).fleet
  unfolding restart_shoot_controller
  restarted-IsMade st S M = restart-IsMade (garden_key st.instruction) st.fleet S M

  cleaned-IsMade :
      (st : State G.RestConfig W)
      → IsSound st.fleet
      → IsMade st.fleet
      → IsMade (cleanup_care_instruction C G greenhouse st).fleet
  unfolding cleanup_care_instruction
  cleaned-IsMade st S M = remove-IsMade (garden_key st.instruction) st.fleet S M

module _ {W : Type 0} (C : ConditionApi) (G : GardenApi W) (R : MapRange) (greenhouse : Client W)
    (N : IsNaming G) where
  created-IsAt :
      (s : Run (State G.RestConfig W))
      → IsSound s.world.fleet
      → IsMade s.world.fleet
      → IsAt
          (garden_key s.world.instruction)
          (view s.world.fleet)
          (ensure_created C G R greenhouse s).1.world.fleet
  created-IsAt s S M =
      let key = garden_key s.world.instruction in
      let v = view s.world.fleet in
      let here : IsAt key v s.world.fleet = record { sound = S; is_made = M; moves = done v } in
      ((Keeps-ensure_created C G R greenhouse N key (IsAt key v) (IsAt-IsOwn key v)).at s
        (refl, here)).1

  deleted-IsAt :
      (s : Run (State G.RestConfig W))
      → IsSound s.world.fleet
      → IsMade s.world.fleet
      → IsAt
          (garden_key s.world.instruction)
          (view s.world.fleet)
          (ensure_deleted C G R greenhouse s).1.world.fleet
  deleted-IsAt s S M =
      let key = garden_key s.world.instruction in
      let v = view s.world.fleet in
      let here : IsAt key v s.world.fleet = record { sound = S; is_made = M; moves = done v } in
      ((Keeps-ensure_deleted C G R greenhouse N key (IsAt key v) (IsAt-IsOwn key v)).at s
        (refl, here)).1

  managed-IsAt :
      (s : Run (State G.RestConfig W))
      → IsSound s.world.fleet
      → IsMade s.world.fleet
      → IsAt
          (garden_key s.world.instruction)
          (view s.world.fleet)
          (reconcile_manager C G greenhouse s).1.world.fleet
  managed-IsAt s S M =
      let key = garden_key s.world.instruction in
      let v = view s.world.fleet in
      let here : IsAt key v s.world.fleet = record { sound = S; is_made = M; moves = done v } in
      ((Keeps-reconcile_manager C G R greenhouse N key (IsAt key v) (IsAt-IsOwn key v)).at s
        (refl, here)).1

  reached-IsMade : (st : State G.RestConfig W) → IsReached C G R greenhouse st → IsMade st.fleet
  reached-IsMade _ (begin w ci) = record { made = λ n c. ground arith }
  reached-IsMade _ (turn_to st w ci r) = reached-IsMade st r
  reached-IsMade _ (run_created s r) =
      (created-IsAt s (reached-IsSound C G R greenhouse s.world r)
        (reached-IsMade s.world r)).is_made
  reached-IsMade _ (run_deleted s r) =
      (deleted-IsAt s (reached-IsSound C G R greenhouse s.world r)
        (reached-IsMade s.world r)).is_made
  reached-IsMade _ (run_manager s r) =
      (managed-IsAt s (reached-IsSound C G R greenhouse s.world r)
        (reached-IsMade s.world r)).is_made
  reached-IsMade _ (run_restart st r) =
      restarted-IsMade C G greenhouse st (reached-IsSound C G R greenhouse st r)
        (reached-IsMade st r)
  reached-IsMade _ (run_cleanup st r) =
      cleaned-IsMade C G greenhouse st (reached-IsSound C G R greenhouse st r) (reached-IsMade st r)
  reached-IsMade _ (stop_by_itself st n b r) = stopped-IsMade n st.fleet (reached-IsMade st r)

  deleted-Gone :
      (s : Run (State G.RestConfig W))
      → IsSound s.world.fleet
      → IsMade s.world.fleet
      → Gone
          (garden_key s.world.instruction)
          (view s.world.fleet)
          (view (ensure_deleted C G R greenhouse s).1.world.fleet)
  unfolding ensure_deleted cleanup_care_instruction ◌>>=◌ write
  deleted-Gone s S M =
      rw (key-initialize C s.world.instruction)
        (remove-Gone (garden_key s.world.instruction) s.world.fleet S M)

  -- If the answer to a patch has the name and namespace of the object, then in every state that can
  -- be reached EnsureCreated, whatever the clusters answer and wherever it fails, makes moves of the
  -- abstract machine for its own CareInstruction alone: it halts the manager that runs for it, and
  -- begins the next one only where none runs. After EnsureDeleted none runs for it, and for all
  -- others the same ones as before.
  pub ensure_created-Moves :
      (s : Run (State G.RestConfig W))
      → IsReached C G R greenhouse s.world
      → Moves
          (garden_key s.world.instruction)
          (view s.world.fleet)
          (view (ensure_created C G R greenhouse s).1.world.fleet)
        × Gone
            (garden_key s.world.instruction)
            (view s.world.fleet)
            (view (ensure_deleted C G R greenhouse s).1.world.fleet)
  ensure_created-Moves s r =
      let S = reached-IsSound C G R greenhouse s.world r in
      (
        (created-IsAt s S (reached-IsMade s.world r)).moves,
        deleted-Gone s S (reached-IsMade s.world r),
      )
