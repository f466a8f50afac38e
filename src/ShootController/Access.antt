-- ===== src/ShootController/Access.antt =====
-- controller/shoot/client.go: a client of the Shoot's own cluster.
use shoot_grafter.Base.{ℕ, ◌≡◌}
use shoot_grafter.Kube.{ok, Shoot}
use shoot_grafter.Kube.Exec.{Exec, ◌>>=◌}
use shoot_grafter.Kube.Client.{Client}
use shoot_grafter.ShootController.{Run, read, write, ShootAccess}
use shoot_grafter.ShootController.Keeps.{Yields, Yields-read, Yields-bind}

-- `10 * time.Minute`, in seconds
abbrev pub expiration_seconds : ℕ
expiration_seconds = 600

-- `getShootClusterClient`
unfoldable pub get_shoot_cluster_client :
    {W : Type 0} → ShootAccess W → Shoot → Exec (Run W) (Client W)
get_shoot_cluster_client A shoot = do
  kubeconfig ← write (A.create_admin_kubeconfig shoot expiration_seconds)
  client_cfg ← read (λ _. A.new_client_config kubeconfig)
  rest_cfg ← read (λ _. A.client_config client_cfg)
  with_core ← read (λ _. A.add_core A.new_scheme)
  scheme ← read (λ _. A.add_rbac with_core)
  read (λ _. A.new_client rest_cfg scheme)

-- The client was made for the cluster of a Shoot.
pub record IsShootClient {W : Type 0} (A : ShootAccess W) (c : Client W) : Type 0 where
  pub config : A.RestConfig
  pub scheme : A.Scheme
  pub is_new : A.new_client config scheme ≡ ok c

pub get_shoot_cluster_client-IsShootClient :
    {W : Type 0} (A : ShootAccess W) (shoot : Shoot)
    → Yields (IsShootClient A) (get_shoot_cluster_client A shoot)
unfolding get_shoot_cluster_client
get_shoot_cluster_client-IsShootClient A shoot = Yields-bind _ _ _ (λ _. Yields-bind _ _ _ (λ _.
    Yields-bind _ _ _ (λ rest_cfg. Yields-bind _ _ _ (λ _.
      Yields-bind _ _ _
        (λ s. Yields-read _ _ (λ w c e. record { config = rest_cfg; scheme = s; is_new = e }))))))
