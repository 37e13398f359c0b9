-- ===== src/Controller/Job/Secrets.antt =====
-- Which secrets the job of an agent mounts.
use Prim.Native.String.{String, ◌++◌}
use bottlerocket_test_system.Base.{
  Bool, true, false, Option, none, some, List, [], ◌∷◌, map, contains, unwrap_or, str_eq,
  if◌then◌else◌, ◌≡◌, refl, ap, arith, eq_iff,
}
use bottlerocket_test_system.Model.Agent.{Agent}
use bottlerocket_test_system.Controller.Job.Builder.{
  Job, JobBuilder, Volume, VolumeMount, Container, volume, mount, insert_name, names_of,
  secret_names, mounts, volumes, build,
}

-- whether a map from types to names of secrets has a name
abbrev pub names_secret : String → List (String × String) → Bool
names_secret a [] = false
names_secret a ((t, n) ∷ rest) = if str_eq n a then true else names_secret a rest

contains-insert_name :
    (n a : String) (xs : List String)
    → contains (insert_name n xs) a ≡ (if str_eq n a then true else contains xs a)
unfolding insert_name contains
contains-insert_name n a [] = refl
contains-insert_name n a (x ∷ xs) =
    ground (arith, contains-insert_name n a xs, eq_iff n x, eq_iff n a, eq_iff x a)

contains-names_of :
    (ms : List (String × String)) (a : String) → contains (names_of ms) a ≡ names_secret a ms
unfolding names_of contains
contains-names_of [] a = refl
contains-names_of ((t, n) ∷ rest) a =
    ground (arith, contains-insert_name n a (names_of rest), contains-names_of rest a)

-- the names of the volumes of a pod, and of the mounts of its containers
abbrev volume_names : List Volume → List String
volume_names [] = []
volume_names (v ∷ vs) = Volume.name v ∷ volume_names vs

-- the secrets of the volumes of a pod
abbrev volume_secrets : List Volume → List (Option String)
volume_secrets [] = []
volume_secrets (v ∷ vs) = Volume.secret_name v ∷ volume_secrets vs

-- the paths of the mounts of a container
abbrev mount_paths : List VolumeMount → List String
mount_paths [] = []
mount_paths (m ∷ ms) = VolumeMount.mount_path m ∷ mount_paths ms

abbrev mount_names : List VolumeMount → List String
mount_names [] = []
mount_names (m ∷ ms) = VolumeMount.name m ∷ mount_names ms

abbrev pub pod_volumes : Job → List String
pod_volumes j = elim j.spec [ none ↦ [] | some s ↦ volume_names (unwrap_or [] s.volumes) ]

abbrev pub pod_secrets : Job → List (Option String)
pod_secrets j = elim j.spec [ none ↦ [] | some s ↦ volume_secrets (unwrap_or [] s.volumes) ]

abbrev container_mounts : (List VolumeMount → List String) → List Container → List (List String)
container_mounts f [] = []
container_mounts f (c ∷ cs) = f (unwrap_or [] c.volume_mounts) ∷ container_mounts f cs

abbrev pub pod_mounts : Job → List (List String)
pod_mounts j = elim j.spec [ none ↦ [] | some s ↦ container_mounts mount_names s.containers ]

abbrev pub pod_paths : Job → List (List String)
pod_paths j = elim j.spec [ none ↦ [] | some s ↦ container_mounts mount_paths s.containers ]

-- where a secret is mounted
abbrev pub secret_path : String → String
secret_path n = "/secrets" ++ ("/" ++ n)

volume_names-map : (ns : List String) → volume_names (map volume ns) ≡ ns
volume_names-map [] = refl
volume_names-map (n ∷ ns) = ap (λ rest. n ∷ rest) (volume_names-map ns)

mount_names-map : (ns : List String) → mount_names (map mount ns) ≡ ns
mount_names-map [] = refl
mount_names-map (n ∷ ns) = ap (λ rest. n ∷ rest) (mount_names-map ns)

volume_secrets-map : (ns : List String) → volume_secrets (map volume ns) ≡ map some ns
volume_secrets-map [] = refl
volume_secrets-map (n ∷ ns) = ap (λ rest. some n ∷ rest) (volume_secrets-map ns)

mount_paths-map : (ns : List String) → mount_paths (map mount ns) ≡ map secret_path ns
mount_paths-map [] = refl
mount_paths-map (n ∷ ns) = ap (λ rest. secret_path n ∷ rest) (mount_paths-map ns)

volumes-secrets :
    (a : Agent) → volume_secrets (unwrap_or [] (volumes a)) ≡ map some (secret_names a)
unfolding volumes
volumes-secrets a = ground (arith, volume_secrets-map (secret_names a))

mounts-paths :
    (a : Agent) → mount_paths (unwrap_or [] (mounts a)) ≡ map secret_path (secret_names a)
unfolding mounts
mounts-paths a = ground (arith, mount_paths-map (secret_names a))

volumes-names : (a : Agent) → volume_names (unwrap_or [] (volumes a)) ≡ secret_names a
unfolding volumes
volumes-names a = ground (arith, volume_names-map (secret_names a))

mounts-names : (a : Agent) → mount_names (unwrap_or [] (mounts a)) ≡ secret_names a
unfolding mounts
mounts-names a = ground (arith, mount_names-map (secret_names a))

contains-secret_names :
    (a : Agent) (n : String) → contains (secret_names a) n ≡ names_secret n (unwrap_or [] a.secrets)
unfolding secret_names contains
contains-secret_names a n = ground (arith, contains-names_of (unwrap_or [] a.secrets) n)

-- The job of an agent has the volume of a secret exactly if the agent names that secret. Each volume
-- holds the secret of its own name. The one container of the job mounts exactly its volumes, in their
-- order, each at the path of its secret below `/secrets`.
pub build-secrets :
    (b : JobBuilder) (n : String)
    → (contains (pod_volumes (build b)) n ≡ names_secret n (unwrap_or [] b.agent.secrets))
      × (pod_secrets (build b) ≡ map some (pod_volumes (build b)))
      × (pod_mounts (build b) ≡ pod_volumes (build b) ∷ [])
      × (pod_paths (build b) ≡ map secret_path (pod_volumes (build b)) ∷ [])
unfolding build
build-secrets b n = ground (
  arith,
  volumes-names b.agent,
  mounts-names b.agent,
  volumes-secrets b.agent,
  mounts-paths b.agent,
  contains-secret_names b.agent n,
)
