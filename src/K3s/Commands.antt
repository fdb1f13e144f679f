-- ===== src/K3s/Commands.antt =====
-- antsd/internal/k3s/exec.go, control_plane.go and installer.go: the commands that K3s is driven
-- with, and what is read of their output. Running a command is given, by its arguments.
use zero_config_ha_cluster.Common.{
  ℕ, zero, suc, codes_eq, trim_space, is_blank, ◌-◌, ◌≤◌, ◌≡◌, Bool, true, false, not, ◌||◌, List,
  [], ◌∷◌, ◌++◌, Option, none, some, String, ◌+++◌, leb, ◌==◌, if◌then◌else◌, length, codes,
  length-append, arith, if-elim, ◌<◌,
}
use zero_config_ha_cluster.Node.Role.{Role}
use zero_config_ha_cluster.K3s.{Error, failure, Installer, ControlPlane}
use zero_config_ha_cluster.K3s.Exec.{Scripts, exec_convert, exec_installed_role}

-- `net.JoinHostPort`: an address with a colon or a zone is put in brackets.
has_code : ℕ → List ℕ → Bool
has_code c [] = false
has_code c (d ∷ ds) = c == d || has_code c ds

unfoldable pub join_host_port : String → String → String
unfolding has_code
join_host_port host port =
    if has_code b':' (codes host) || has_code b'%' (codes host)
    then "[" +++ (host +++ ("]:" +++ port))
    else host +++ (":" +++ port)

-- `joinURL`.
unfoldable pub join_url : String → String
unfolding join_host_port
join_url ip = "https://" +++ join_host_port ip "6443"

-- The installer's settings.
pub record ExecInstaller : Type 0 where
  pub token : String
  pub node_name : String
  pub bin_path : String

-- `NewExecInstaller`; the directories of its other fields are those of `Staging` and of the units.
unfoldable pub new_exec_installer : String → String → ExecInstaller
new_exec_installer token node_name = record {
  token = token;
  node_name = node_name;
  bin_path = "/usr/local/bin/k3s";
}

-- `cmd.Env` of `runInstallScript`.
unfoldable pub install_env : ExecInstaller → List String → List String → List String
install_env i environ extra_env =
    (environ
      ++ ("INSTALL_K3S_SKIP_DOWNLOAD=true"
          ∷ ("K3S_TOKEN=" +++ i.token)
          ∷ ("K3S_NODE_NAME=" +++ i.node_name)
          ∷ []))
    ++ extra_env

-- The variables of `InstallServerInit`, `InstallServerJoin` and `InstallAgent`.
unfoldable pub server_init_env : List String
server_init_env = "INSTALL_K3S_EXEC=server --cluster-init" ∷ []

unfoldable pub server_join_env : String → List String
unfolding join_url
server_join_env server_ip = ("INSTALL_K3S_EXEC=server --server " +++ join_url server_ip) ∷ []

unfoldable pub agent_env : String → List String
unfolding join_url
agent_env server_ip = "INSTALL_K3S_EXEC=agent" ∷ ("K3S_URL=" +++ join_url server_ip) ∷ []

-- Running a command with its arguments and, for the install script, its environment: the output,
-- or an error. Staging is `stageAirGapAssets`.
pub record Shell (W : Type 0) : Type 0 where
  pub stage : W → W × Bool
  pub environ : W → List String
  pub run_install : List String → W → W × Option String
  pub run : List String → W → W × Option String

-- `runInstallScript`.
unfoldable pub run_install_script :
    {W : Type 0} → Shell W → ExecInstaller → List String → W → W × Option Error
unfolding install_env
run_install_script sh i extra_env w =
    let (w1, staged) = sh.stage w in
    if staged
    then (let (w2, r) = sh.run_install (install_env i (sh.environ w1) extra_env) w1 in
        (w2, elim r [ none ↦ some failure | some _ ↦ none ]))
    else (w1, some failure)

-- `InstallServerInit`, `InstallServerJoin` and `InstallAgent`.
unfoldable pub install_server_init : {W : Type 0} → Shell W → ExecInstaller → W → W × Option Error
unfolding run_install_script server_init_env
install_server_init sh i w = run_install_script sh i server_init_env w

unfoldable pub install_server_join :
    {W : Type 0} → Shell W → ExecInstaller → String → W → W × Option Error
unfolding run_install_script server_join_env
install_server_join sh i server_ip w = run_install_script sh i (server_join_env server_ip) w

unfoldable pub install_agent :
    {W : Type 0} → Shell W → ExecInstaller → String → W → W × Option Error
unfolding run_install_script agent_env
install_agent sh i server_ip w = run_install_script sh i (agent_env server_ip) w

-- The probe of `WaitServerReady`, and that of `WaitAgentReady`; `true` is no error.
unfoldable pub probe_server : {W : Type 0} → Shell W → ExecInstaller → W → W × Bool
probe_server sh i w =
    let (w1, r) = sh.run (i.bin_path ∷ "kubectl" ∷ "get" ∷ "--raw=/readyz" ∷ []) w in
    (w1, elim r [ none ↦ false | some _ ↦ true ])

unfoldable pub probe_agent : {W : Type 0} → Shell W → ExecInstaller → W → W × Bool
probe_agent sh i w =
    let (w1, r) =
      sh.run
        (i.bin_path ∷ "kubectl" ∷ "--kubeconfig" ∷ "/var/lib/rancher/k3s/agent/kubelet.kubeconfig"
          ∷ "get" ∷ "node" ∷ i.node_name ∷ "-o"
          ∷ "jsonpath={.status.conditions[?(@.type==\"Ready\")].status}" ∷ [])
        w in
    (
      w1,
      elim r [ none ↦ false | some output ↦ codes_eq (trim_space (codes output)) (codes "True") ],
    )

-- What the installer asks of the units of systemd, the uninstall scripts and the context.
pub record Units (W : Type 0) : Type 0 where
  pub unit_exists : Role → W → W × Option Bool
  pub uninstall : Role → W → W × Bool
  pub canceled : W → Bool
  pub wait_server_ready : W → W × Option Error
  pub wait_agent_ready : W → W × Option Error

-- `ExecInstaller` as an `Installer`.
unfoldable pub scripts_of : {W : Type 0} → Shell W → ExecInstaller → Units W → Scripts W
scripts_of sh i u = record {
  unit_exists = u.unit_exists;
  uninstall = u.uninstall;
  canceled = u.canceled;
  install_server_join = λ ip w. install_server_join sh i ip w;
  install_agent = λ ip w. install_agent sh i ip w;
}

unfoldable pub exec_installer : {W : Type 0} → Shell W → ExecInstaller → Units W → Installer W
unfolding scripts_of
exec_installer sh i u = record {
  install_server_init = λ w. install_server_init sh i w;
  install_server_join = λ ip w. install_server_join sh i ip w;
  install_agent = λ ip w. install_agent sh i ip w;
  convert = λ to ip w. exec_convert (scripts_of sh i u) to ip w;
  wait_server_ready = u.wait_server_ready;
  wait_agent_ready = u.wait_agent_ready;
  installed_role = λ w. exec_installed_role (scripts_of sh i u) w;
}

-- `ExecControlPlane.kubectl`.
unfoldable pub kubectl : {W : Type 0} → Shell W → List String → W → W × Option String
kubectl sh args w =
    sh.run ("/usr/local/bin/k3s" ∷ "kubectl" ∷ "--kubeconfig" ∷ "/etc/rancher/k3s/k3s.yaml" ∷ args)
      w

abbrev as_error : {W : Type 0} → W × Option String → W × Option Error
as_error (w, r) = (w, elim r [ none ↦ some failure | some _ ↦ none ])

-- `ExecControlPlane`, by its three methods.
unfoldable pub exec_control_plane : {W : Type 0} → Shell W → ControlPlane W
unfolding kubectl
exec_control_plane sh = record {
  drain_node = λ name w. as_error (
      kubectl sh
        ("drain" ∷ name ∷ "--ignore-daemonsets" ∷ "--delete-emptydir-data" ∷ "--force" ∷ "--timeout"
          ∷ "2m0s" ∷ [])
        w);
  delete_node =
      λ name w. as_error (kubectl sh ("delete" ∷ "node" ∷ name ∷ "--ignore-not-found" ∷ []) w);
  node_exists = λ name w.
      let (w1, r) =
        kubectl sh ("get" ∷ "node" ∷ name ∷ "--ignore-not-found" ∷ "-o" ∷ "name" ∷ []) w in
      (w1, elim r [ none ↦ none | some output ↦ some (not (is_blank (codes output))) ]);
}

-- `output[:n]` and `output[len(output)-n:]`.
abbrev pub first_bytes : ℕ → List ℕ → List ℕ
first_bytes zero bs = []
first_bytes (suc n) [] = []
first_bytes (suc n) (b ∷ bs) = b ∷ first_bytes n bs

abbrev pub skip_bytes : ℕ → List ℕ → List ℕ
skip_bytes zero bs = bs
skip_bytes (suc n) [] = []
skip_bytes (suc n) (b ∷ bs) = skip_bytes n bs

-- `truncate`, of the bytes that `bytes.TrimSpace` leaves of an output.
unfoldable pub truncate : (List ℕ → List ℕ) → List ℕ → List ℕ
truncate trim output =
    let bytes = trim output in
    if leb (length bytes) 1_024
    then bytes
    else first_bytes 512 bytes ++ (codes "\n[...]\n" ++ skip_bytes (length bytes - 512) bytes)

length-first_bytes : (n : ℕ) (bs : List ℕ) → length (first_bytes n bs) ≤ n
length-first_bytes zero bs = omega arith
length-first_bytes (suc n) [] = omega arith
length-first_bytes (suc n) (b ∷ bs) = omega (arith, length-first_bytes n bs)

length-skip_bytes : (n : ℕ) (bs : List ℕ) → length (skip_bytes n bs) ≡ length bs - n
length-skip_bytes zero bs = omega arith
length-skip_bytes (suc n) [] = omega arith
length-skip_bytes (suc n) (b ∷ bs) = omega (arith, length-skip_bytes n bs)

truncated_length :
    (bytes : List ℕ)
    → 1_024 < length bytes
    → length (first_bytes 512 bytes ++ (codes "\n[...]\n" ++ skip_bytes (length bytes - 512) bytes))
      ≤ 1_031
truncated_length bytes l = omega (
  arith,
  l,
  length-first_bytes 512 bytes,
  length-skip_bytes (length bytes - 512) bytes,
  length-append (first_bytes 512 bytes)
      (codes "\n[...]\n" ++ skip_bytes (length bytes - 512) bytes),
  length-append (codes "\n[...]\n") (skip_bytes (length bytes - 512) bytes),
)

-- A command's output in an error message has at most 1,031 bytes.
pub length-truncate :
    (trim : List ℕ → List ℕ) (output : List ℕ) → length (truncate trim output) ≤ 1_031
unfolding truncate
length-truncate trim output =
    if-elim (λ l. length l ≤ 1_031) (leb (length (trim output)) 1_024) (trim output) _
      (λ h. ground arith) (λ h. truncated_length (trim output) (ground arith))
