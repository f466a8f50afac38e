-- ===== src/Tests/Watches.antt =====
-- An event of a Shoot, for a watch with a filter.

use shoot_grafter.Base.{Bool, true, ◌&&◌, none, List, [], ◌∷◌, ◌≡◌, refl, text_dec}
use shoot_grafter.Kube.{ok, Result, LabelSelector}
use shoot_grafter.ShootController.{ShootController}
use shoot_grafter.Watch.SetUp.{
  ShootEvent, shoot_created, Predicate, noise_predicate, new_cel_predicate, shoot_predicates,
}
use shoot_grafter.Watch.Selects.{
  passes_all, is_noise_free, is_labelled, is_matched, shoot_predicates_lem,
}
use shoot_grafter.Tests.Clusters.{Owners, controller, externals, two_clusters}
use shoot_grafter.Tests.Reports.{filtered, shoot_named}
use shoot_grafter.Tests.Events.{semantic}

-- Every label selector is one that lets all pass.
abbrev all_pass : LabelSelector → Result (ShootEvent → Bool)
all_pass s = ok (λ event. true)

abbrev filtering_controller : ShootController Owners
filtering_controller = record controller { care_instruction = filtered }

abbrev two_predicates : List (Predicate Owners)
two_predicates =
    noise_predicate semantic externals all_pass filtering_controller
    ∷ new_cel_predicate semantic externals all_pass filtering_controller
    ∷ []

shoot_predicates_example :
    ((passes_all two_predicates (shoot_created (shoot_named "a")) two_clusters).0
      ≡ ok (
          is_noise_free semantic externals all_pass filtering_controller
            (shoot_created (shoot_named "a"))
          && (is_labelled semantic externals all_pass filtering_controller none
                (shoot_created (shoot_named "a"))
              && is_matched semantic externals all_pass filtering_controller
                  (shoot_created (shoot_named "a")))))
    × ((passes_all two_predicates (shoot_created (shoot_named "a")) two_clusters).1.world
        ≡ two_clusters.world)
unfolding text_dec shoot_predicates
shoot_predicates_example =
    shoot_predicates_lem semantic externals all_pass filtering_controller two_predicates
      (shoot_created (shoot_named "a")) two_clusters refl
