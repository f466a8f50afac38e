-- ===== src/Tests/Process.antt =====
-- A process without a manager.
use shoot_grafter.Base.{String, ◌↔◌, ◌≡◌, ◌<>◌}
use shoot_grafter.Kube.{new_error, ok, err}
use shoot_grafter.Process.{ProcessApi, panics, run}
use shoot_grafter.Process.Ends.{Ran, run_iff}

-- A scheme is the list of what is registered. The manager cannot be constructed.
abbrev unmanaged_process : ProcessApi
unmanaged_process = record {
  Scheme = String;
  Config = String;
  Manager = Unit {0};
  new_scheme = "";
  add_client_go = λ s. ok (s <> "core ");
  add_greenhouse_v1alpha1 = λ s. ok (s <> "v1alpha1 ");
  add_greenhouse_v1alpha2 = λ s. ok (s <> "v1alpha2 ");
  add_api_group = λ s. ok (s <> "careinstructions ");
  getenv = λ name. "greenhouse";
  get_config_with_context = λ context. ok context;
  new_manager = λ config options. err (new_error "no manager");
  set_up_with_manager = λ mgr. ok tt;
  start = λ mgr. ok tt;
}

run_iff_example :
    (run unmanaged_process "" ":8080" ≡ panics) ↔ Ran unmanaged_process "" ":8080" panics
run_iff_example = run_iff unmanaged_process "" ":8080" panics
