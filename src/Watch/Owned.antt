-- ===== src/Watch/Owned.antt =====
-- Which Shoots an update of an authentication ConfigMap in the garden leads to.
use mathlib.Core.List.{Memᴰ}
use mathlib.Core.List.Memᴰ
use shoot_grafter.Base.{
  String, true, false, Option, none, some, List, [], ◌∷◌, ◌↔◌, ◌≡◌, ◌≢◌, refl, sym, ap, subst,
  arith, is_some, get_or, Bool-cases, inl, inr, ◌!=◌, text_dec, if◌then◌else◌,
}
use shoot_grafter.Base.Dict.{NodupKeys, lookup, entries}
use shoot_grafter.Kube.{ok, ObjectKey, ConfigMap, Shoot}
use shoot_grafter.Kube.Client.{Client, in_namespace, matching_fields}
use shoot_grafter.Api.{care_instruction_label}
use shoot_grafter.ShootController.{ShootController}
use shoot_grafter.Watch.{has_label, key_of, enqueue_shoots, owner_index}
use shoot_grafter.Watch.Wiring.{on_update, WatchApi, IsWatchApi, data_changed, shoot_requests}
use shoot_grafter.Watch.Asked.{Differs, Differs-iff, gate}

-- The Shoots that a client lists for a namespace and a value of the owner index: of all these, the
-- ones of the namespace that the index has under the value.
pub record IsIndexed {W : Type 0} (client : Client W) (w : W) (all : List Shoot) : Type 0 where
  pub found : String → String → List Shoot
  pub answers :
      (namespace v : String)
      → client.list_shoots
          (in_namespace namespace ∷ matching_fields care_instruction_label v ∷ [])
          w
        ≡ ok (found namespace v)
  pub finds :
      (namespace v : String) (s : Shoot)
      → Memᴰ s (found namespace v)
        ↔ (Memᴰ s all × (s.namespace ≡ namespace) × Memᴰ v (owner_index s))

-- A Shoot of the namespace that is labelled with the owner, who has a name, and has this key.
abbrev pub Configured : List Shoot → ConfigMap → ObjectKey → Type 0
Configured all cm k =
    (s : Shoot) × (owner : String) × Memᴰ s all
    × (s.namespace ≡ cm.namespace)
    × (owner ≢ "")
    × (lookup care_instruction_label (entries cm.labels) ≡ some owner)
    × (lookup care_instruction_label (entries s.labels) ≡ some owner)
    × (k ≡ key_of s.meta)

empty_test : ("" != "") ≡ false
unfolding text_dec
empty_test = refl

value_Mem :
    (o : Option String) (v : String)
    → Memᴰ v (let u = get_or o "" in if u != "" then u ∷ [] else []) ↔ ((v ≢ "") × (o ≡ some v))
value_Mem none v = rw empty_test (λ m. elim m [ ], λ (n, e). ground arith)
value_Mem (some u) v = elim (Bool-cases (u != "")) [
  | inl t ↦ rw t (
    λ m. let e = Memᴰ.eq_of_singleton m in (λ z. ground arith, ap some (sym e)),
    λ (n, e). Memᴰ.head (ground arith),
  )
  | inr t ↦ rw t (λ m. elim m [ ], λ (n, e). ground arith)
]

labelled : (o : Option String) → is_some o ≡ true → o ≡ some (get_or o "")
labelled none l = ground arith
labelled (some u) l = refl

indexed :
    (s : Shoot) (v : String)
    → Memᴰ v (owner_index s)
      ↔ ((v ≢ "") × (lookup care_instruction_label (entries s.labels) ≡ some v))
unfolding owner_index
indexed s v = value_Mem (lookup care_instruction_label (entries s.labels)) v

module _ {W : Type 0} (r : ShootController W) (w : W) (all : List Shoot)
    (I : IsIndexed r.garden_client w all) where
  requested_Mem :
      (cm : ConfigMap) (k : ObjectKey)
      → has_label care_instruction_label cm.meta ≡ true
      → Memᴰ k (enqueue_shoots r cm.meta w) ↔ Configured all cm k
  unfolding enqueue_shoots has_label
  requested_Mem cm k l =
      let name = get_or (lookup care_instruction_label (entries cm.labels)) "" in
      rw (I.answers cm.namespace name) (
        λ m.
            let (s, there, e) =
              Memᴰ.of_map (λ (t : Shoot). key_of t.meta) (I.found cm.namespace name) m in
            let (a, n, x) = (I.finds cm.namespace name s).0 there in
            let (y, z) = (indexed s name).0 x in
            (
              s,
              name,
              a,
              n,
              y,
              labelled (lookup care_instruction_label (entries cm.labels)) l,
              z,
              sym e,
            ),
        λ (s, owner, a, n, y, c, z, e).
            let here : name ≡ owner = ap (λ o. get_or o "") c in
            rw (e, here)
              (Memᴰ.map (λ (t : Shoot). key_of t.meta)
                ((I.finds cm.namespace owner s).1 (a, n, (indexed s owner).1 (y, z)))),
      )

enqueue-same :
    {W : Type 0} (r : ShootController W) (w : W) (old new : ConfigMap)
    → old.namespace ≡ new.namespace
    → lookup care_instruction_label (entries old.labels)
      ≡ lookup care_instruction_label (entries new.labels)
    → enqueue_shoots r old.meta w ≡ enqueue_shoots r new.meta w
unfolding enqueue_shoots
enqueue-same r w old new n l = rw (n, l) refl

Configured-labelled :
    (all : List Shoot) (cm : ConfigMap) (k : ObjectKey)
    → Configured all cm k
    → has_label care_instruction_label cm.meta ≡ true
unfolding has_label
Configured-labelled all cm k (s, owner, a, n, y, c, z, e) = rw c refl

module _ {W : Type 0} (V : WatchApi) (L : IsWatchApi V) (r : ShootController W) (w : W)
    (all : List Shoot) (I : IsIndexed r.garden_client w all) where
  -- If the client of the garden lists Shoots by the owner index, then for an update of a ConfigMap
  -- of the garden that keeps its namespace and its owner label, with data without a repeated key:
  -- the update leads to a run for exactly the Shoots of its namespace that are labelled with the
  -- same owner, whose name is not empty, if its data differs.
  pub shoot_requests_iff :
      (old new : ConfigMap) (k : ObjectKey)
      → old.namespace ≡ new.namespace
      → lookup care_instruction_label (entries old.labels)
        ≡ lookup care_instruction_label (entries new.labels)
      → NodupKeys (entries old.contents)
      → NodupKeys (entries new.contents)
      → Memᴰ k (shoot_requests V r w (on_update old new)) ↔ (Differs old new × Configured all new k)
  unfolding shoot_requests
  shoot_requests_iff old new k n l u v =
      let ask = λ (cm : ConfigMap). enqueue_shoots r cm.meta w in
      let (there, back) =
        gate V L (λ (cm : ConfigMap). has_label care_instruction_label cm.meta)
          (data_changed (on_update old new)) ask old new k in
      let (d, d') = Differs-iff old new u v in
      let into = λ (b : has_label care_instruction_label new.meta ≡ true).
        (requested_Mem r w all I new k b).0 in
      (
        λ m.
            let (b, c, x) = there m in
            (
              d c,
              elim x [
                | inl y ↦ into b (subst (Memᴰ k) (enqueue-same r w old new n l) y)
                | inr y ↦ into b y
              ],
            ),
        λ (c, x).
            let b = Configured-labelled all new k x in
            back (b, d' c, inr ((requested_Mem r w all I new k b).1 x)),
      )
