-- ===== src/Node/Persist.antt =====
-- antsd/internal/node/persist.go: the state that survives a reboot, and its validation. The file
-- and its JSON decoding stand for what `load` is given: no file, a file that cannot be read or
-- parsed, or the parsed state.
use zero_config_ha_cluster.Common.{ℕ, ℤ, Bool, true, false, ◌||◌, String, str_eq, if◌then◌else◌}
use zero_config_ha_cluster.Node.Role.{Role, is_server, is_agent}

-- `PersistedState`. The count of boots is a signed integer of 64 bits. A time is a number of nanoseconds; 0 is Go's zero time.
pub record PersistedState : Type 0 where
  pub node_name : String
  pub role : Role
  pub boot_count : ℤ
  pub first_boot_completed_at : ℕ
  pub role_changed_at : ℕ

-- What reading and parsing the file gives.
pub data StateFile : Type 0 where
  missing : StateFile
  unreadable : StateFile
  parsed : PersistedState → StateFile

-- What `Load` returns: an error that wraps `fs.ErrNotExist`, another error, or the state.
pub data LoadResult : Type 0 where
  not_exist : LoadResult
  invalid : LoadResult
  loaded : PersistedState → LoadResult

-- `PersistedState.validate`; `true` is no error.
unfoldable pub validate : PersistedState → Bool
validate s =
    if str_eq s.node_name ""
    then false
    else if is_server s.role || is_agent s.role
    then true
    else false

-- `Load`.
unfoldable pub load : StateFile → LoadResult
unfolding validate
load missing = not_exist
load unreadable = invalid
load (parsed s) = if validate s then loaded s else invalid
