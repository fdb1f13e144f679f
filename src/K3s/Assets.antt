-- ===== src/K3s/Assets.antt =====
-- What the restoring of one file in antsd/internal/k3s/exec.go guarantees.
use zero_config_ha_cluster.Common.{
  ◌≡◌, refl, sym, ap, subst, ◌∙◌, ◌⊎◌, inl, inr, Bool, true, false, none, some, String, str_eq,
  if◌then◌else◌, Files, put, arith, eq_iff, eq_refl, Bool-cases, Option-cases, if-elim,
}
use zero_config_ha_cluster.K3s.Staging.{Disk, copy_content, copy_file, link_or_copy, stage_asset}

copy_content_elsewhere :
    (d : Disk) (content dst : String) (files : Files) (q : String)
    → str_eq q (d.tmp_name dst) ≡ false
    → str_eq q dst ≡ false
    → (copy_content d content dst files).0 q ≡ files q
unfolding copy_content
copy_content_elsewhere d content dst files q t e = ground arith

copy_file_elsewhere :
    (d : Disk) (src dst : String) (files : Files) (q : String)
    → str_eq q (d.tmp_name dst) ≡ false
    → str_eq q dst ≡ false
    → (copy_file d src dst files).0 q ≡ files q
unfolding copy_file
copy_file_elsewhere d src dst files q t e = elim (Option-cases (files src)) [
  | inl n ↦ rw (n, copy_file) refl
  | inr (c, s) ↦
      rw (s, copy_file)
        (if-elim (λ (x : Files × Bool). x.0 q ≡ files q) (d.open_fails src) _ _ (λ _. refl)
          (λ _. copy_content_elsewhere d c dst files q t e))
]

link_or_copy_elsewhere :
    (d : Disk) (src dst : String) (files : Files) (q : String)
    → str_eq q (d.tmp_name dst) ≡ false
    → str_eq q dst ≡ false
    → (link_or_copy d src dst files).0 q ≡ files q
unfolding link_or_copy
link_or_copy_elsewhere d src dst files q t e = elim (Option-cases (files src)) [
  | inl n ↦ rw (n, link_or_copy) (copy_file_elsewhere d src dst files q t e)
  | inr (c, s) ↦
      rw (s, link_or_copy)
        (if-elim (λ (x : Files × Bool). x.0 q ≡ files q) (d.link_fails dst) _ _
          (λ _. copy_file_elsewhere d src dst files q t e) (λ _. ground arith))
]

-- A file is there with a content wherever it was there with it before.
abbrev pub IsKept : Files → Files → String → Type 0
IsKept before after q = (before q ≡ none) ⊎ (after q ≡ before q)

-- What `stageAsset` does for a file that is there, and for one that is not.
stage_asset-present :
    (d : Disk) (src dst : String) (files : Files) (c : String)
    → files dst ≡ some c
    → (stage_asset d src dst files).0 ≡ files
unfolding stage_asset
stage_asset-present d src dst files c e =
    rw (e, stage_asset)
      (if-elim (λ (x : Files × Bool). x.0 ≡ files) (d.stat_fails dst) _ _ (λ _. refl) (λ _. refl))

pub stage_asset_elsewhere :
    (d : Disk) (src dst : String) (files : Files) (q : String)
    → str_eq q (d.tmp_name dst) ≡ false
    → str_eq q dst ≡ false
    → (stage_asset d src dst files).0 q ≡ files q
unfolding stage_asset
stage_asset_elsewhere d src dst files q t e = elim (Option-cases (files dst)) [
  | inl n ↦
      rw (n, stage_asset)
        (if-elim (λ (x : Files × Bool). x.0 q ≡ files q) (d.stat_fails dst) _ _ (λ _. refl)
          (λ _.
            if-elim (λ (x : Files × Bool). x.0 q ≡ files q) (d.mkdir_fails dst) _ _ (λ _. refl)
              (λ _. link_or_copy_elsewhere d src dst files q t e)))
  | inr (c, s) ↦ ap (λ f. f q) (stage_asset-present d src dst files c s)
]

pub stage_asset_keeps :
    (d : Disk) (src dst : String) (files : Files) (q : String)
    → str_eq q (d.tmp_name dst) ≡ false
    → IsKept files (stage_asset d src dst files).0 q
stage_asset_keeps d src dst files q t = elim (Bool-cases (str_eq q dst)) [
  | inr e ↦ inr (stage_asset_elsewhere d src dst files q t e)
  | inl e ↦ elim (Option-cases (files q)) [
    | inl n ↦ inl n
    | inr (c, s) ↦ inr (
        ap (λ f. f q)
          (stage_asset-present d src dst files c (sym (ap files ((eq_iff q dst).0 e)) ∙ s)))
  ]
]

-- What a copy without an error leaves at its destination.
abbrev Copies : Files → String → String → Files × Bool → Type 0
Copies files src dst r = r.1 ≡ true → (c : String) × (files src ≡ some c) × (r.0 dst ≡ some c)

copy_content-Copies :
    (d : Disk) (content src dst : String) (files : Files)
    → str_eq dst (d.tmp_name dst) ≡ false
    → files src ≡ some content
    → Copies files src dst (copy_content d content dst files)
unfolding copy_content
copy_content-Copies d content src dst files t s h =
    (content, s, ground (arith, eq_refl dst, eq_refl (d.tmp_name dst)))

copy_file-some :
    (d : Disk) (src dst : String) (files : Files) (c : String)
    → files src ≡ some c
    → copy_file d src dst files
      ≡ (if d.open_fails src then (files, false) else copy_content d c dst files)
unfolding copy_file
copy_file-some d src dst files c e = rw (e, copy_file) refl

copy_file-Copies :
    (d : Disk) (src dst : String) (files : Files)
    → str_eq dst (d.tmp_name dst) ≡ false
    → Copies files src dst (copy_file d src dst files)
unfolding copy_file
copy_file-Copies d src dst files t = elim (Option-cases (files src)) [
  | inl n ↦ rw (n, copy_file) (λ h. absurd (ground arith))
  | inr (c, s) ↦ subst (Copies files src dst) (sym (copy_file-some d src dst files c s)) (
      if-elim (Copies files src dst) (d.open_fails src) _ _ (λ _ h. absurd (ground arith))
        (λ _. copy_content-Copies d c src dst files t s))
]

link_or_copy-some :
    (d : Disk) (src dst : String) (files : Files) (c : String)
    → files src ≡ some c
    → link_or_copy d src dst files ≡ (
        if d.link_fails dst
        then copy_file d src dst files
        else (put dst c files, (if d.chmod_fails dst then false else true)))
unfolding link_or_copy
link_or_copy-some d src dst files c e = rw (e, link_or_copy) refl

link_or_copy-none :
    (d : Disk) (src dst : String) (files : Files)
    → files src ≡ none
    → link_or_copy d src dst files ≡ copy_file d src dst files
unfolding link_or_copy
link_or_copy-none d src dst files e = rw (e, link_or_copy) refl

link_or_copy-Copies :
    (d : Disk) (src dst : String) (files : Files)
    → str_eq dst (d.tmp_name dst) ≡ false
    → Copies files src dst (link_or_copy d src dst files)
link_or_copy-Copies d src dst files t = elim (Option-cases (files src)) [
  | inl n ↦
      subst (Copies files src dst) (sym (link_or_copy-none d src dst files n))
        (copy_file-Copies d src dst files t)
  | inr (c, s) ↦ subst (Copies files src dst) (sym (link_or_copy-some d src dst files c s)) (
      if-elim (Copies files src dst) (d.link_fails dst) _ _
        (λ _. copy_file-Copies d src dst files t) (λ _ h. (c, s, rw (eq_refl dst) refl)))
]

-- What a path holds once it is staged: what it held before, or what the vault holds.
abbrev pub IsStaged : Files → Files → String → String → Type 0
IsStaged before after src dst =
    (c : String) × (after dst ≡ some c)
    × ((before dst ≡ some c) ⊎ ((before dst ≡ none) × (before src ≡ some c)))

stage_asset-absent :
    (d : Disk) (src dst : String) (files : Files)
    → files dst ≡ none
    → stage_asset d src dst files ≡ (
        if d.stat_fails dst
        then (files, false)
        else if d.mkdir_fails dst
        then (files, false)
        else link_or_copy d src dst files)
unfolding stage_asset
stage_asset-absent d src dst files e = rw (e, stage_asset) refl

abbrev StagesIn : Files → String → String → Files × Bool → Type 0
StagesIn files src dst r = r.1 ≡ true → IsStaged files r.0 src dst

pub stage_asset-IsStaged :
    (d : Disk) (src dst : String) (files : Files)
    → str_eq dst (d.tmp_name dst) ≡ false
    → StagesIn files src dst (stage_asset d src dst files)
stage_asset-IsStaged d src dst files t = elim (Option-cases (files dst)) [
  | inl n ↦ subst (StagesIn files src dst) (sym (stage_asset-absent d src dst files n)) (
      if-elim (StagesIn files src dst) (d.stat_fails dst) _ _ (λ _ h. absurd (ground arith))
        λ _.
          if-elim (StagesIn files src dst) (d.mkdir_fails dst) _ _ (λ _ h. absurd (ground arith))
            λ _ h. let (c, s, e) = link_or_copy-Copies d src dst files t h in (c, e, inr (n, s)))
  | inr (c, s) ↦ λ _. (c, ap (λ f. f dst) (stage_asset-present d src dst files c s) ∙ s, inl s)
]
