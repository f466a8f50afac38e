-- ===== src/CareInstructionController/Known.antt =====
-- A garden that is there, before and after its manager is started.
use shoot_grafter.Base.{
  ℕ, String, true, false, some, ◌≡◌, refl, inl, inr, Bool-cases, Option-cases, is_some, arith,
}
use shoot_grafter.Base.Dict.{lookup, lookup-insert}
use shoot_grafter.Api.{CareInstructionSpec}
use shoot_grafter.CareInstructionController.{Garden, Fleet}
use shoot_grafter.CareInstructionController.Gardens.{
  has, new_garden, register, stop_existing, started, start,
}
use shoot_grafter.CareInstructionController.Sound.{IsSound}
use shoot_grafter.CareInstructionController.Sound.Stops.{
  register-IsSound, stop_existing-IsSound, stop_manager-gardens,
}

-- The garden under the key has a manager, a client, and a channel that is open.
pub record Serves {Config C : Type 0} (key : String) (f : Fleet Config C) : Type 0 where
  pub garden : Garden Config C
  pub is_there : lookup key f.gardens ≡ some garden
  pub has_manager : is_some garden.mgr ≡ true
  pub client : C
  pub has_client : garden.garden_client ≡ some client
  pub number : ℕ
  pub has_channel : garden.stop_chan ≡ some number
  pub is_open : has number f.closed ≡ false

-- There is a garden under the key.
pub record IsKnown {Config C : Type 0} (key : String) (f : Fleet Config C) : Type 0 where
  pub sound : IsSound f
  pub garden : Garden Config C
  pub is_there : lookup key f.gardens ≡ some garden

module _ {Config C : Type 0} where
  pub register-IsKnown :
      (key : String) (spec : CareInstructionSpec) (hash : String) (f : Fleet Config C)
      → IsSound f
      → IsKnown key (register key spec hash f)
  unfolding register
  register-IsKnown key spec hash f h =
      let sound = register-IsSound key f h spec hash in
      let new : Garden Config C = new_garden spec hash in
      elim (Option-cases (lookup key f.gardens)) [
        | inl e ↦ record {
          sound = sound;
          garden = new;
          is_there = rw (register, e) (ground (arith, lookup-insert key key new f.gardens));
        }
        | inr (g, e) ↦ record { sound = sound; garden = g; is_there = rw (register, e) e }
      ]

  -- The channel of the next start is open.
  pub next-is_open : (f : Fleet Config C) → IsSound f → has f.next f.closed ≡ false
  next-is_open f h = elim (Bool-cases (has f.next f.closed)) [
    | inl e ↦ ground (arith, h.past f.next e)
    | inr e ↦ e
  ]

  pub start-Serves :
      (key : String) (config : Config) (client : C) (spec : CareInstructionSpec)
      (f : Fleet Config C)
      → IsKnown key f
      → Serves key (start key config client spec f)
  unfolding start
  start-Serves key config client spec f k =
      let new = started config client spec f.next k.garden in
      rw (start, k.is_there)
        (record {
          garden = new;
          is_there = ground (arith, lookup-insert key key new f.gardens);
          has_manager = refl;
          client = client;
          has_client = refl;
          number = f.next;
          has_channel = refl;
          is_open = next-is_open f k.sound;
        })

  stopped-there :
      (key : String) (f : Fleet Config C) (g : Garden Config C)
      → IsSound f
      → lookup key f.gardens ≡ some g
      → lookup key (stop_existing key f).gardens ≡ some g
  unfolding stop_existing
  stopped-there key f g h e =
      rw (stop_existing, e) (rw (stop_manager-gardens key f h g.mgr g.cancel_func) e)

  pub stopped-IsKnown :
      (key : String) (f : Fleet Config C) → IsKnown key f → IsKnown key (stop_existing key f)
  stopped-IsKnown key f k = record {
    sound = stop_existing-IsSound key f k.sound;
    garden = k.garden;
    is_there = stopped-there key f k.garden k.sound k.is_there;
  }
