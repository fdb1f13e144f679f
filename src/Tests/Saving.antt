-- ===== src/Tests/Saving.antt =====
-- Files and readiness probes of antsd/internal/node/persist.go and antsd/internal/k3s/exec.go on concrete inputs.
use zero_config_ha_cluster.Common.{
  ◌≡◌, ◌≢◌, refl, ◌⊎◌, inr, Bool, true, false, List, [], ◌∷◌, none, some, String, str_eq, pos,
  if◌then◌else◌, ◌==◌, Files, put, arith, eq_iff,
}
use zero_config_ha_cluster.Node.Role.{server}
use zero_config_ha_cluster.Node.Persist.{PersistedState, loaded, validate}
use zero_config_ha_cluster.Node.Saving.{
  Codec, Disk, save, load_from, save_is_atomic, load_from-save,
}
use zero_config_ha_cluster.K3s.Waiting.{Probes, poll_until_ready, end_at, poll_until_ready-end}
use zero_config_ha_cluster.K3s.Staging.{
  Archive, Paths, stage_air_gap_assets, stage_archives, stage_listed, stage_asset, link_or_copy,
  copy_file, copy_content, drop_tmp,
}
use zero_config_ha_cluster.K3s.Staging as Staging
use zero_config_ha_cluster.K3s.Assets.{IsKept}
use zero_config_ha_cluster.K3s.Restoring.{
  IsReady, stage_air_gap_assets_keeps, stage_air_gap_assets-IsReady,
}

abbrev node_a : PersistedState
node_a = record {
  node_name = "a";
  role = server;
  boot_count = pos 1;
  first_boot_completed_at = 5;
  role_changed_at = 0;
}

abbrev path : String
path = "state.json"

abbrev temporary : String
temporary = "state.json.tmp-1"

-- The encoding of the one state, and a disk on which the rename fails or not.
abbrev codec : Codec
codec = record { encode = λ _. some "{}"; decode = λ _. some node_a }

abbrev disk : Bool → Disk
disk broken = record {
  mkdir_fails = false;
  create_fails = false;
  write_fails = false;
  close_fails = false;
  rename_fails = broken;
  remove_fails = false;
  tmp_name = temporary;
  written_part = "{";
}

abbrev no_files : Files
no_files _ = none

one_name : path ≢ temporary
one_name e = absurd (ground (arith, (eq_iff path temporary).1 e))

save_is_atomic_example :
    (((save codec (disk true) path node_a no_files).1 ≡ false)
      × ((save codec (disk true) path node_a no_files).0 path ≡ none))
    ⊎ ((bytes : String) × (codec.encode node_a ≡ some bytes)
        × ((save codec (disk true) path node_a no_files).1 ≡ true)
        × ((save codec (disk true) path node_a no_files).0 path ≡ put path bytes no_files path))
save_is_atomic_example = save_is_atomic codec (disk true) path node_a no_files path one_name

load_from-save_example :
    (((save codec (disk false) path node_a no_files).1 ≡ true)
      × (load_from codec false path (save codec (disk false) path node_a no_files).0
          ≡ loaded node_a))
    ⊎ (((save codec (disk false) path node_a no_files).1 ≡ false)
        × (load_from codec false path (save codec (disk false) path node_a no_files).0
            ≡ load_from codec false path no_files))
unfolding validate
load_from-save_example =
    load_from-save codec (disk false) false path node_a no_files one_name (λ _ _. refl) refl

-- The third probe succeeds.
abbrev third : Probes
third = record { succeeds = λ k. k == 3; canceled = λ k. k == 9 }

poll_until_ready-end_example : poll_until_ready 5 third ≡ some (end_at third 3)
poll_until_ready-end_example = poll_until_ready-end 5 2 third refl refl (omega arith)

-- A vault with the binary and one archive, on a disk where no hard link can be made.
abbrev vault : Files
vault q =
    if str_eq q "/v/k3s"
    then some "binary"
    else if str_eq q "/v/images/a.tar"
    then some "archive"
    else none

abbrev paths : Paths
paths = record { bin_path = "/bin/k3s"; images_dir = "/images"; vault_dir = "/v" }

abbrev archives : List Archive
archives = record { name = "a.tar"; is_dir = false } ∷ []

abbrev no_link : Staging.Disk
no_link = record {
  canceled = false;
  stat_fails = λ _. false;
  mkdir_fails = λ _. false;
  link_fails = λ _. true;
  chmod_fails = λ _. false;
  open_fails = λ _. false;
  create_fails = λ _. false;
  copy_fails = λ _. false;
  sync_fails = λ _. false;
  close_fails = λ _. false;
  rename_fails = λ _. false;
  remove_fails = λ _. false;
  tmp_name = λ _. "/tmp/1";
  copied_part = λ _. "";
}

stage_air_gap_assets_keeps_example :
    IsKept vault (stage_air_gap_assets no_link paths true (some archives) vault).0 "/v/k3s"
stage_air_gap_assets_keeps_example =
    stage_air_gap_assets_keeps no_link paths true (some archives) vault "/v/k3s" (λ _. refl)

stage_air_gap_assets-IsReady_example :
    IsReady paths
      (some archives)
      vault
      (stage_air_gap_assets no_link paths true (some archives) vault).0
unfolding stage_air_gap_assets stage_archives stage_listed stage_asset link_or_copy copy_file
    copy_content drop_tmp
stage_air_gap_assets-IsReady_example =
    stage_air_gap_assets-IsReady no_link paths true (some archives) vault (λ _. refl)
      (((λ _. refl), (λ _. refl), tt), (tt, tt), (refl, tt), (inr ("archive", refl), tt)) refl
