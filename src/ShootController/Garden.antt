-- ===== src/ShootController/Garden.antt =====
-- What the authentication of Shoots needs of the client of the garden.
use shoot_grafter.Base.{
  String, false, Option, none, some, [], ◌∷◌, ◌≡◌, ◌≢◌, refl, arith, ◌!=◌, get_or,
}
use shoot_grafter.Base.Dict.{Dict, lookup, lookup-insert, insert, entries}
use shoot_grafter.Kube.{Result, ok, err, ObjectKey, ConfigMap, Shoot, KubeApiServer}
use shoot_grafter.Kube.Client.{Client, OperationResult}
use shoot_grafter.Api.{CareInstruction, care_instruction_label}
use shoot_grafter.ShootController.Auth.{
  auth_config_map_key, auth_name, needs_label, needs_update, with_auth_label, answer_or,
}

-- The value of the owner label.
abbrev pub owner_of : Option (Dict String) → Option String
owner_of labels = lookup care_instruction_label (entries labels)

-- What the client of the garden does with ConfigMaps and Shoots: CreateOrUpdate stores what the
-- function makes of the ConfigMap that is there or of the one that is given, writes of Shoots leave
-- ConfigMaps alone, and an answer has what was sent: to a patch the labels, to an update the
-- reference too.
pub record IsGarden {W : Type 0} (garden : Client W) : Type 0 where
  pub stored :
      (cm : ConfigMap) (f : ConfigMap → ConfigMap) (w : W) (answer : OperationResult × ConfigMap)
      → (garden.create_or_update_config_map cm f w).0 ≡ ok answer
      → (old : ConfigMap) × (garden.get_config_map
            (record { namespace = cm.namespace; name = cm.name })
            (garden.create_or_update_config_map cm f w).1
          ≡ ok (f old))
  pub patch_leaves :
      (base s : Shoot) (key : ObjectKey) (w : W)
      → garden.get_config_map key (garden.patch_shoot base s w).1 ≡ garden.get_config_map key w
  pub update_leaves :
      (s : Shoot) (key : ObjectKey) (w : W)
      → garden.get_config_map key (garden.update_shoot s w).1 ≡ garden.get_config_map key w
  pub patch_answers :
      (base s t : Shoot) (w : W)
      → (garden.patch_shoot base s w).0 ≡ ok t
      → owner_of t.labels ≡ owner_of s.labels
  pub update_answers :
      (s t : Shoot) (w : W)
      → (garden.update_shoot s w).0 ≡ ok t
      → (owner_of t.labels ≡ owner_of s.labels)
        × (auth_name t.spec.kube_api_server ≡ auth_name s.spec.kube_api_server)

-- The answer to a patch of a ConfigMap has its data.
abbrev pub KeepsData : {W : Type 0} → Client W → Type 0
KeepsData {W} greenhouse =
    (base cm answer : ConfigMap) (w : W)
    → (greenhouse.patch_config_map base cm w).0 ≡ ok answer
    → answer.contents ≡ cm.contents

-- Under this key is a ConfigMap that is labelled with the owner and holds the content alone.
abbrev pub Holds : {W : Type 0} → Client W → ObjectKey → String → String → W → Type 0
Holds garden key owner content w =
    (cm : ConfigMap) × (garden.get_config_map key w ≡ ok cm)
    × (owner_of cm.labels ≡ some owner)
    × (cm.contents ≡ some ((auth_config_map_key, content) ∷ []))

named : (o : Option String) (n : String) → n ≢ "" → (get_or o "" != n) ≡ false → o ≡ some n
named none n h e = ground arith
named (some m) n h e = ground arith

pub labelled-owner :
    (ci : CareInstruction) (labels : Option (Dict String))
    → ci.name ≢ ""
    → needs_label ci labels ≡ false
    → owner_of labels ≡ some ci.name
labelled-owner ci none n e = ground arith
labelled-owner ci (some m) n e = named (lookup care_instruction_label m) ci.name n e

pub referred :
    (name : String) (server : Option KubeApiServer)
    → needs_update name server ≡ false
    → auth_name server ≡ name
referred name server e = ground arith

pub owner_of-insert :
    (name : String) (labels : Option (Dict String))
    → owner_of (some (insert care_instruction_label name (entries labels))) ≡ some name
owner_of-insert name labels =
    ground
      (arith, lookup-insert care_instruction_label care_instruction_label name (entries labels))

pub same_contents :
    (a b : ConfigMap) → ◌≡◌ {A = Result ConfigMap} (ok a) (ok b) → a.contents ≡ b.contents
same_contents a b e = ground arith

-- What the patch leaves has the data that was there.
pub answered_contents :
    (cm : ConfigMap) (answer : Result ConfigMap)
    → ((t : ConfigMap) → answer ≡ ok t → t.contents ≡ cm.contents)
    → (answer_or (with_auth_label cm) answer).contents ≡ cm.contents
answered_contents cm (ok t) h = h t refl
answered_contents cm (err e) h = refl

-- The Shoot is labelled with the owner.
abbrev pub IsOwned : CareInstruction → Shoot → Type 0
IsOwned ci s = owner_of s.labels ≡ some ci.name

-- The Shoot is labelled and refers to the ConfigMap of this name.
abbrev pub IsSetUp : CareInstruction → String → Shoot → Type 0
IsSetUp ci name s = IsOwned ci s × (auth_name s.spec.kube_api_server ≡ name)
