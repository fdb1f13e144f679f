-- ===== src/K3s/Staging.antt =====
-- antsd/internal/k3s/exec.go: the files that an offline installation needs, restored from the vault.
-- The failures of the file system are given; the modes of the files are left out, and a hard link is
-- a copy of the content.
use zero_config_ha_cluster.Common.{
  Bool, true, false, ◌||◌, List, [], ◌∷◌, Option, none, some, String, ◌+++◌, if◌then◌else◌, Files,
  put, remove, rename,
}

-- What the outside answers for a call on a path: whether it fails, the name of a temporary file
-- beside a path, and what a copy that is cut off leaves.
pub record Disk : Type 0 where
  pub canceled : Bool
  pub stat_fails : String → Bool
  pub mkdir_fails : String → Bool
  pub link_fails : String → Bool
  pub chmod_fails : String → Bool
  pub open_fails : String → Bool
  pub create_fails : String → Bool
  pub copy_fails : String → Bool
  pub sync_fails : String → Bool
  pub close_fails : String → Bool
  pub rename_fails : String → Bool
  pub remove_fails : String → Bool
  pub tmp_name : String → String
  pub copied_part : String → String

-- The temporary file that `copyFile` leaves behind an error, removed by its `defer`.
unfoldable pub drop_tmp : Disk → String → Files → Files
drop_tmp d dst files = if d.remove_fails dst then files else remove (d.tmp_name dst) files

-- `copyFile`, once the source is open; the flag tells that there was no error.
unfoldable pub copy_content : Disk → String → String → Files → Files × Bool
unfolding drop_tmp
copy_content d content dst files =
    if d.create_fails dst
    then (files, false)
    else if d.copy_fails dst
    then (drop_tmp d dst (put (d.tmp_name dst) (d.copied_part dst) files), false)
    else if d.sync_fails dst || (d.chmod_fails dst || (d.close_fails dst || d.rename_fails dst))
    then (drop_tmp d dst (put (d.tmp_name dst) content files), false)
    else (drop_tmp d dst (rename (d.tmp_name dst) dst (put (d.tmp_name dst) content files)), true)

-- `copyFile`.
unfoldable pub copy_file : Disk → String → String → Files → Files × Bool
unfolding copy_content
copy_file d src dst files = elim (files src) [
  | none ↦ (files, false)
  | some content ↦ if d.open_fails src then (files, false) else copy_content d content dst files
]

-- The part of `stageAsset` behind the directory: the hard link, or the copy.
unfoldable pub link_or_copy : Disk → String → String → Files → Files × Bool
unfolding copy_file
link_or_copy d src dst files = elim (files src) [
  | none ↦ copy_file d src dst files
  | some content ↦
      if d.link_fails dst
      then copy_file d src dst files
      else (put dst content files, (if d.chmod_fails dst then false else true))
]

-- `stageAsset`.
unfoldable pub stage_asset : Disk → String → String → Files → Files × Bool
unfolding link_or_copy
stage_asset d src dst files = if d.stat_fails dst then (files, false) else elim (files dst) [
  | some _ ↦ (files, true)
  | none ↦ if d.mkdir_fails dst then (files, false) else link_or_copy d src dst files
]

-- An entry of the directory of images, and the installer's directories.
pub record Archive : Type 0 where
  pub name : String
  pub is_dir : Bool

pub record Paths : Type 0 where
  pub bin_path : String
  pub images_dir : String
  pub vault_dir : String

-- `filepath.Join` of a directory and a name, which are clean paths.
abbrev pub join_path : String → String → String
join_path dir name = dir +++ ("/" +++ name)

-- The loop over the archives.
unfoldable pub stage_archives : Disk → Paths → List Archive → Files → Files × Bool
unfolding stage_asset
stage_archives d p [] files = (files, true)
stage_archives d p (a ∷ rest) files =
    let (files1, ok) =
      stage_asset d (join_path (join_path p.vault_dir "images") a.name)
        (join_path p.images_dir a.name) files in
    let staged = stage_archives d p rest files1 in
    let skipped = stage_archives d p rest files in
    if a.is_dir then skipped else if ok then staged else (files1, false)

-- The part of `stageAirGapAssets` behind `os.ReadDir`.
unfoldable pub stage_listed : Disk → Paths → Option (List Archive) → Files → Files × Bool
unfolding stage_archives
stage_listed d p none files = (files, false)
stage_listed d p (some l) files = stage_archives d p l files

-- `stageAirGapAssets`; `vault` tells whether the vault is there, and `archives` is what the
-- directory of images holds, if it can be read.
unfoldable pub stage_air_gap_assets :
    Disk → Paths → Bool → Option (List Archive) → Files → Files × Bool
unfolding stage_asset stage_listed
stage_air_gap_assets d p vault archives files =
    if d.canceled
    then (files, false)
    else if vault
    then (let (files1, ok) = stage_asset d (join_path p.vault_dir "k3s") p.bin_path files in
        if ok then stage_listed d p archives files1 else (files1, false))
    else (files, false)
