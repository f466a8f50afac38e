-- ===== src/Tests/Runs.antt =====
-- Runs of Reconcile for a Cluster of one's own, and for one of another CareInstruction.

use shoot_grafter.Base.{◌≡◌, refl, text_dec}
use shoot_grafter.Base.Dict.{lookup}
use shoot_grafter.Kube.{ok, not_found}
use shoot_grafter.ShootController.Reconcile.{reconcile}
use shoot_grafter.ShootController.Ownership.{
  reconcile_keeps, reconcile_removed, after_removal, cluster_of,
}
use shoot_grafter.ShootController.Rbac.{set_rbac, binding_name}
use shoot_grafter.ShootController.Rbac.Outcome.{set_rbac_lem, after_get}
use shoot_grafter.Tests.Clusters.{
  client, externals, controller, two_clusters, request, HasOther, HasOther-IsKept,
}

other_kept : HasOther two_clusters.world
unfolding lookup text_dec
other_kept = refl

reconcile_keeps_example :
    HasOther (reconcile externals controller (request "a") two_clusters).1.world
reconcile_keeps_example =
    reconcile_keeps externals controller HasOther HasOther-IsKept (request "a") two_clusters
      other_kept

reconcile_removed_example :
    (reconcile externals controller (request "a") two_clusters).1.world
    ≡ after_removal externals controller
        (cluster_of externals controller (request "a") two_clusters.world)
        two_clusters.world
reconcile_removed_example =
    reconcile_removed externals controller (request "a") two_clusters
      (record { reason = not_found; message = "not found" }) refl refl

set_rbac_example :
    ((set_rbac controller client "a" two_clusters).0 ≡ ok tt)
    × ((set_rbac controller client "a" two_clusters).1.world
        ≡ after_get controller client "a"
            (client.get_cluster_role_binding binding_name two_clusters.world)
            two_clusters.world)
set_rbac_example = set_rbac_lem controller client "a" two_clusters
