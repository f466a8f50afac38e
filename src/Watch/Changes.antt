-- ===== src/Watch/Changes.antt =====
-- predicates.go: which events of a ConfigMap lead to a run.
use shoot_grafter.Base.{String, true, false, ◌≡◌, ◌↔◌, refl, arith}
use shoot_grafter.Base.Dict.{NodupKeys, lookup, entries}
use shoot_grafter.Base.MapsEqual.{maps_equal_iff}
use shoot_grafter.Kube.{ConfigMap}
use shoot_grafter.Watch.{was_created, was_updated, was_deleted, passes_data_changed}

-- Of the events of a ConfigMap, PredicateConfigMapDataChanged passes every creation and no deletion,
-- and drops an update exactly when the data holds the same text under every key before and after,
-- where a nil map and an empty one are the same.
pub passes_data_changed_lem :
    (old new : ConfigMap)
    → NodupKeys (entries old.contents)
    → NodupKeys (entries new.contents)
    → (passes_data_changed (was_created new) ≡ true)
      × (passes_data_changed (was_deleted old) ≡ false)
      × ((passes_data_changed (was_updated old new) ≡ false)
          ↔ ((k : String) → lookup k (entries old.contents) ≡ lookup k (entries new.contents)))
unfolding passes_data_changed
passes_data_changed_lem old new u w =
    let (there, back) = maps_equal_iff (entries old.contents) (entries new.contents) u w in
    (refl, refl, (λ e. there (ground arith), λ h. ground (arith, back h)))
