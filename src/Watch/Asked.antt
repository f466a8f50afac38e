-- ===== src/Watch/Asked.antt =====
-- Which CareInstructions an update of a watched object leads to.
use mathlib.Core.List.{Memᴰ}
use mathlib.Core.List.Memᴰ
use shoot_grafter.Base.{
  String, Bool, true, false, Option, none, some, List, [], ◌∷◌, ◌&&◌, ◌↔◌, ◌⊎◌, ◌≡◌, refl, ap, ◌∙◌,
  arith, inl, inr, contains, is_some, Bool-cases, if◌then◌else◌,
}
use shoot_grafter.Base.Dict.{NodupKeys, lookup, entries}
use shoot_grafter.Kube.{ok, ObjectKey, Cluster, ConfigMap, Secret, Result}
use shoot_grafter.Api.{CareInstruction, care_instruction_label, auth_config_map_label}
use shoot_grafter.Watch.{
  has_secret_type, has_label, was_updated, passes_data_changed, enqueue_for_cluster,
  enqueue_for_garden_cluster, enqueue_for_auth_config_map,
}
use shoot_grafter.Watch.Changes.{passes_data_changed_lem}
use shoot_grafter.Watch.Requests.{Asks, enqueue_iff}
use shoot_grafter.Watch.Wiring.{
  on_update, WatchApi, IsWatchApi, data_changed, secret_requests, cluster_requests, auth_requests,
}

-- A list under a test.
if_Mem :
    (b : Bool) (k : ObjectKey) (ks : List ObjectKey)
    → Memᴰ k (if b then ks else []) ↔ ((b ≡ true) × Memᴰ k ks)
if_Mem true k ks = (λ m. (refl, m), λ (e, m). m)
if_Mem false k ks = (λ m. elim m [ ], λ (e, m). ground arith)

-- The Cluster is labelled with the name of this CareInstruction.
abbrev pub IsOwner : Cluster → ObjectKey → Type 0
IsOwner c k =
    (name : String) × (lookup care_instruction_label (entries c.labels) ≡ some name)
    × (k ≡ record { namespace = c.namespace; name = name })

abbrev requested : String → Option String → List ObjectKey
requested namespace none = []
requested namespace (some name) = record { namespace = namespace; name = name } ∷ []

requested_Mem :
    (namespace : String) (o : Option String) (k : ObjectKey)
    → Memᴰ k (requested namespace o)
      ↔ ((name : String) × (o ≡ some name) × (k ≡ record { namespace = namespace; name = name }))
requested_Mem namespace none k = (λ m. elim m [ ], λ (name, e, f). ground arith)
requested_Mem namespace (some name) k =
    (λ m. (name, refl, Memᴰ.eq_of_singleton m), λ (name', e, f). Memᴰ.head (ground arith))

cluster_Mem : (c : Cluster) (k : ObjectKey) → Memᴰ k (enqueue_for_cluster c) ↔ IsOwner c k
unfolding enqueue_for_cluster
cluster_Mem c k = requested_Mem c.namespace (lookup care_instruction_label (entries c.labels)) k

-- The data differs under some key.
abbrev pub Differs : ConfigMap → ConfigMap → Type 0
Differs old new =
    ¬ ((j : String) → lookup j (entries old.contents) ≡ lookup j (entries new.contents))

pub Differs-iff :
    (old new : ConfigMap)
    → NodupKeys (entries old.contents)
    → NodupKeys (entries new.contents)
    → (data_changed (on_update old new) ≡ true) ↔ Differs old new
unfolding data_changed
Differs-iff old new u w =
    let (_, _, (there, back)) = passes_data_changed_lem old new u w in
    (
      λ e same. let f = back same in ground arith,
      λ n. elim (Bool-cases (passes_data_changed (was_updated old new))) [
        | inl e ↦ e
        | inr e ↦ absurd (n (there e))
      ],
    )

abbrev no_map : ConfigMap
no_map = record {
  meta = record { name = ""; namespace = ""; labels = none; annotations = none };
  contents = none;
}

abbrev no_secret : Secret
no_secret = record {
  meta = record { name = ""; namespace = ""; labels = none; annotations = none };
  contents = none;
  type = "";
}

module _ (V : WatchApi) (L : IsWatchApi V) where
  -- A watch of objects of one type, on an update.
  pub gate :
      {A : Type 0} (p : A → Bool) (q : Bool) (f : A → List ObjectKey) (old new : A) (k : ObjectKey)
      → Memᴰ k (
          if V.new_predicate_funcs A p (on_update old new) && q
          then V.enqueue_requests A f (on_update old new)
          else [])
        ↔ ((p new ≡ true) × (q ≡ true) × (Memᴰ k (f old) ⊎ Memᴰ k (f new)))
  gate {A} p q f old new k =
      let (there, back) = L.requests A f (on_update old new) k in
      let e = L.test A p (on_update old new) in
      let (into, out) = if_Mem (p new && q) k (V.enqueue_requests A f (on_update old new)) in
      rw e (
        λ m. let (b, n) = into m in (ground arith, ground arith, there n),
        λ (b, c, n). out (ground arith, back n),
      )

  gate_one :
      {A : Type 0} (p : A → Bool) (f : A → List ObjectKey) (old new : A) (k : ObjectKey)
      → Memᴰ k (
          if V.new_predicate_funcs A p (on_update old new)
          then V.enqueue_requests A f (on_update old new)
          else [])
        ↔ ((p new ≡ true) × (Memᴰ k (f old) ⊎ Memᴰ k (f new)))
  gate_one {A} p f old new k =
      let (there, back) = L.requests A f (on_update old new) k in
      let e = L.test A p (on_update old new) in
      let (into, out) = if_Mem (p new) k (V.enqueue_requests A f (on_update old new)) in
      rw e (λ m. let (b, n) = into m in (b, there n), λ (b, n). out (b, back n))

  -- Both objects ask for the same.
  pub joined :
      (P : ObjectKey → Type 0) (ks ls : List ObjectKey) (k : ObjectKey)
      → Memᴰ k ks ↔ P k
      → Memᴰ k ls ↔ P k
      → (Memᴰ k ks ⊎ Memᴰ k ls) ↔ P k
  joined P ks ls k (a, b) (c, d) = (elim [ inl m ↦ a m | inr m ↦ c m ], λ x. inl (b x))

  secrets_iff :
      (types : List String) (all : List CareInstruction) (s s' : Secret) (k : ObjectKey)
      → s.name ≡ s'.name
      → Memᴰ k (secret_requests V types (ok all) (on_update s s')) ↔ (
          (contains s'.type types ≡ true)
          × Asks (λ ci. ci.spec.garden_cluster_name ≡ s'.name) all k)
  unfolding secret_requests has_secret_type
  secrets_iff types all s s' k e =
      let ask = λ (t : Secret). enqueue_for_garden_cluster t (ok all) in
      let Here : ObjectKey → Type 0 = Asks (λ ci. ci.spec.garden_cluster_name ≡ s'.name) all in
      let (there, back) = gate_one (λ t. contains t.type types) ask s s' k in
      let (into, out) =
        joined Here (ask s) (ask s') k (rw (← e) (enqueue_iff s no_map all k).0)
          (enqueue_iff s' no_map all k).0 in
      (λ m. let (b, n) = there m in (b, into n), λ (b, n). back (b, out n))

  clusters_iff :
      (c c' : Cluster) (k : ObjectKey)
      → Memᴰ k (cluster_requests V (on_update c c')) ↔ (
          (is_some (lookup care_instruction_label (entries c'.labels)) ≡ true)
          × (IsOwner c k ⊎ IsOwner c' k))
  unfolding cluster_requests has_label
  clusters_iff c c' k =
      let (there, back) =
        gate_one (λ (d : Cluster). is_some (lookup care_instruction_label (entries d.labels)))
          enqueue_for_cluster c c' k in
      let (a, b) = cluster_Mem c k in
      let (a', b') = cluster_Mem c' k in
      (
        λ m. let (e, n) = there m in (e, elim n [ inl x ↦ inl (a x) | inr x ↦ inr (a' x) ]),
        λ (e, n). back (e, elim n [ inl x ↦ inl (b x) | inr x ↦ inr (b' x) ]),
      )

  auth_iff :
      (answer : String → Result (List CareInstruction)) (items : List CareInstruction)
      (old new : ConfigMap) (k : ObjectKey)
      → old.name ≡ new.name
      → old.namespace ≡ new.namespace
      → answer new.namespace ≡ ok items
      → NodupKeys (entries old.contents)
      → NodupKeys (entries new.contents)
      → Memᴰ k (auth_requests V answer (on_update old new)) ↔ (
          (is_some (lookup auth_config_map_label (entries new.labels)) ≡ true)
          × Differs old new
          × Asks (λ ci. ci.spec.authentication_config_map_name ≡ new.name) items k)
  unfolding auth_requests has_label
  auth_iff answer items old new k e f a u w =
      let ask = λ (cm : ConfigMap). enqueue_for_auth_config_map cm (answer cm.namespace) in
      let there_too : answer old.namespace ≡ ok items = ap answer f ∙ a in
      let Here : ObjectKey → Type 0 =
        Asks (λ ci. ci.spec.authentication_config_map_name ≡ new.name) items in
      let (there, back) =
        gate (λ (cm : ConfigMap). is_some (lookup auth_config_map_label (entries cm.labels)))
          (data_changed (on_update old new)) ask old new k in
      let (into, out) =
        joined Here (ask old) (ask new) k
          (rw (there_too, ← e) (enqueue_iff no_secret old items k).1)
          (rw a (enqueue_iff no_secret new items k).1) in
      let (d, d') = Differs-iff old new u w in
      (λ m. let (b, c, n) = there m in (b, d c, into n), λ (b, c, n). back (b, d' c, out n))

  -- For an update of an object that keeps its name and namespace, given the CareInstructions that
  -- are listed, and data of ConfigMaps without a repeated key: a Secret leads to a run for exactly
  -- those whose garden Cluster bears its name, if its new type is one of those with a kubeconfig; a
  -- Cluster to a run for the CareInstructions that its old and its new owner label name, if it is
  -- labelled after the update; and a ConfigMap to a run for exactly those of its namespace that name
  -- it as their authentication ConfigMap, if it is labelled as such and its data differs.
  pub watches_iff :
      (types : List String) (all : List CareInstruction)
      (answer : String → Result (List CareInstruction)) (items : List CareInstruction)
      (s s' : Secret) (c c' : Cluster) (old new : ConfigMap) (k : ObjectKey)
      → s.name ≡ s'.name
      → old.name ≡ new.name
      → old.namespace ≡ new.namespace
      → answer new.namespace ≡ ok items
      → NodupKeys (entries old.contents)
      → NodupKeys (entries new.contents)
      → (Memᴰ k (secret_requests V types (ok all) (on_update s s')) ↔ (
          (contains s'.type types ≡ true)
          × Asks (λ ci. ci.spec.garden_cluster_name ≡ s'.name) all k))
        × (Memᴰ k (cluster_requests V (on_update c c')) ↔ (
            (is_some (lookup care_instruction_label (entries c'.labels)) ≡ true)
            × (IsOwner c k ⊎ IsOwner c' k)))
        × (Memᴰ k (auth_requests V answer (on_update old new)) ↔ (
            (is_some (lookup auth_config_map_label (entries new.labels)) ≡ true)
            × Differs old new
            × Asks (λ ci. ci.spec.authentication_config_map_name ≡ new.name) items k))
  watches_iff types all answer items s s' c c' old new k sn on os a u w = (
    secrets_iff types all s s' k sn,
    clusters_iff c c' k,
    auth_iff answer items old new k on os a u w,
  )
