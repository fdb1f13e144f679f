-- ===== src/Node/Saving.antt =====
-- antsd/internal/node/persist.go: writing the state file, through a temporary file and a rename. The
-- JSON encoding and the failures of the file system are given.
use zero_config_ha_cluster.Common.{
  ◌≡◌, ◌≢◌, refl, ap, ◌∙◌, ◌⊎◌, inl, inr, Bool, true, false, Option, none, some, String,
  str_eq-false, if◌then◌else◌, Files, put, remove, rename, arith, eq_refl, Option-cases,
}
use zero_config_ha_cluster.Node.Persist.{
  PersistedState, StateFile, missing, unreadable, parsed, LoadResult, invalid, loaded, validate,
  load,
}

-- `json.MarshalIndent`, and `json.Unmarshal` into a `PersistedState`; `none` is the error.
pub record Codec : Type 0 where
  pub encode : PersistedState → Option String
  pub decode : String → Option PersistedState

-- Which calls fail, the name that `os.CreateTemp` chooses, and what a write that fails leaves.
pub record Disk : Type 0 where
  pub mkdir_fails : Bool
  pub create_fails : Bool
  pub write_fails : Bool
  pub close_fails : Bool
  pub rename_fails : Bool
  pub remove_fails : Bool
  pub tmp_name : String
  pub written_part : String

-- `os.Remove(tmpName)`, whose error is dropped.
unfoldable pub discard : Disk → Files → Files
discard d files = if d.remove_fails then files else remove d.tmp_name files

-- `Save` behind the encoding; the flag tells that there was no error.
unfoldable pub save_bytes : Disk → String → String → Files → Files × Bool
unfolding discard
save_bytes d path bytes files =
    if d.mkdir_fails
    then (files, false)
    else if d.create_fails
    then (files, false)
    else if d.write_fails
    then (discard d (put d.tmp_name d.written_part files), false)
    else if d.close_fails
    then (discard d (put d.tmp_name bytes files), false)
    else if d.rename_fails
    then (discard d (put d.tmp_name bytes files), false)
    else (rename d.tmp_name path (put d.tmp_name bytes files), true)

-- `Save`.
unfoldable pub save : Codec → Disk → String → PersistedState → Files → Files × Bool
unfolding save_bytes
save c d path s files = elim (c.encode s) [
  | none ↦ (files, false)
  | some bytes ↦ save_bytes d path bytes files
]

-- What `Load` finds: no file, a file that is not the JSON of a state, or a state.
unfoldable pub read_bytes : Codec → Option String → StateFile
read_bytes c none = missing
read_bytes c (some bytes) = elim (c.decode bytes) [ none ↦ unreadable | some s ↦ parsed s ]

-- `Load`, from the files; `read_fails` tells that `os.ReadFile` returns an error other than that there
-- is no file.
unfoldable pub load_from : Codec → Bool → String → Files → LoadResult
unfolding read_bytes
load_from c read_fails path files =
    if read_fails then load unreadable else load (read_bytes c (files path))

save_bytes_atomic :
    (d : Disk) (path bytes : String) (files : Files) (q : String)
    → q ≢ d.tmp_name
    → (((save_bytes d path bytes files).1 ≡ false)
        × ((save_bytes d path bytes files).0 q ≡ files q))
      ⊎ (((save_bytes d path bytes files).1 ≡ true)
          × ((save_bytes d path bytes files).0 q ≡ put path bytes files q))
unfolding save_bytes discard
save_bytes_atomic d path bytes files q h =
    ground (arith, str_eq-false q d.tmp_name h, eq_refl d.tmp_name)

-- `Save` is atomic for every file but its temporary one: either it returns an error and they are
-- what they were, or it returns none, and the file at the path is the encoded state and the others
-- are what they were.
pub save_is_atomic :
    (c : Codec) (d : Disk) (path : String) (s : PersistedState) (files : Files) (q : String)
    → q ≢ d.tmp_name
    → (((save c d path s files).1 ≡ false) × ((save c d path s files).0 q ≡ files q))
      ⊎ ((bytes : String) × (c.encode s ≡ some bytes)
          × ((save c d path s files).1 ≡ true)
          × ((save c d path s files).0 q ≡ put path bytes files q))
unfolding save
save_is_atomic c d path s files q h = elim (Option-cases (c.encode s)) [
  | inl e ↦ inl (rw (e, save) refl, rw (e, save) refl)
  | inr (bytes, e) ↦ elim (save_bytes_atomic d path bytes files q h) [
    | inl (a, b) ↦ inl (rw (e, save) a, rw (e, save) b)
    | inr (a, b) ↦ inr (bytes, e, rw (e, save) a, rw (e, save) b)
  ]
]

load-bytes :
    (c : Codec) (bytes : String) (s : PersistedState)
    → c.decode bytes ≡ some s
    → validate s ≡ true
    → load (read_bytes c (some bytes)) ≡ loaded s
unfolding load read_bytes
load-bytes c bytes s e v = rw (e, read_bytes) (rw v refl)

-- What the state file is good for: where decoding undoes encoding, the state is valid and the
-- temporary file has a name of its own, what `Load` returns after a `Save` without an error is the
-- saved state, unless the file cannot be read, which is an error, and not the one that there is no
-- file; and after a `Save` with an error, it is what a `Load` that can read the file, or not,
-- returned before.
pub load_from-save :
    (c : Codec) (d : Disk) (read_fails : Bool) (path : String) (s : PersistedState) (files : Files)
    → path ≢ d.tmp_name
    → ((bytes : String) → c.encode s ≡ some bytes → c.decode bytes ≡ some s)
    → validate s ≡ true
    → (((save c d path s files).1 ≡ true)
        × (load_from c read_fails path (save c d path s files).0
            ≡ (if read_fails then invalid else loaded s)))
      ⊎ (((save c d path s files).1 ≡ false)
          × (load_from c read_fails path (save c d path s files).0
              ≡ load_from c read_fails path files))
unfolding load_from load
load_from-save c d read_fails path s files h law v = elim (save_is_atomic c d path s files path h) [
  | inl (a, b) ↦ inr (a, ap (λ o. if read_fails then invalid else load (read_bytes c o)) b)
  | inr (bytes, e, a, b) ↦
      let r : (save c d path s files).0 path ≡ some bytes = b ∙ rw (eq_refl path) refl in
      inl (
        a,
        ap (λ o. if read_fails then invalid else load (read_bytes c o)) r
            ∙ ap (λ (x : LoadResult). if read_fails then invalid else x)
                (load-bytes c bytes s (law bytes e) v),
      )
]
