-- ===== src/K3s/Restoring.antt =====
-- What an installation finds once antsd/internal/k3s/exec.go has restored its files.
use zero_config_ha_cluster.Common.{
  ◌≡◌, refl, sym, ◌∙◌, ◌⊎◌, inl, inr, Bool, true, false, List, [], ◌∷◌, Option, none, some, String,
  str_eq, Files, arith, if-elim,
}
use zero_config_ha_cluster.K3s.Staging.{
  Disk, stage_asset, Archive, Paths, join_path, stage_archives, stage_listed, stage_air_gap_assets,
}
use zero_config_ha_cluster.K3s.Assets.{
  IsKept, IsStaged, stage_asset_elsewhere, stage_asset_keeps, stage_asset-IsStaged,
}

IsKept-trans : (a b c : Files) (q : String) → IsKept a b q → IsKept b c q → IsKept a c q
IsKept-trans a b c q (inl n) k = inl n
IsKept-trans a b c q (inr e) (inl n) = inl (sym e ∙ n)
IsKept-trans a b c q (inr e) (inr f) = inr (f ∙ e)

stage_archives-keeps :
    (d : Disk) (p : Paths) (l : List Archive) (files : Files) (q : String)
    → ((dst : String) → str_eq q (d.tmp_name dst) ≡ false)
    → IsKept files (stage_archives d p l files).0 q
unfolding stage_archives
stage_archives-keeps d p [] files q t = inr refl
stage_archives-keeps d p (a ∷ l) files q t =
    let src = join_path (join_path p.vault_dir "images") a.name in
    let dst = join_path p.images_dir a.name in
    let r = stage_asset d src dst files in
    let k = stage_asset_keeps d src dst files q (t dst) in
    if-elim (λ (x : Files × Bool). IsKept files x.0 q) a.is_dir _ _
      (λ _. stage_archives-keeps d p l files q t)
      λ _.
        if-elim (λ (x : Files × Bool). IsKept files x.0 q) r.1 _ _
          (λ _.
            IsKept-trans files r.0 (stage_archives d p l r.0).0 q k
              (stage_archives-keeps d p l r.0 q t))
          (λ _. k)

stage_listed-keeps :
    (d : Disk) (p : Paths) (archives : Option (List Archive)) (files files1 : Files) (q : String)
    → ((dst : String) → str_eq q (d.tmp_name dst) ≡ false)
    → IsKept files files1 q
    → IsKept files (stage_listed d p archives files1).0 q
unfolding stage_listed
stage_listed-keeps d p none files files1 q t k = k
stage_listed-keeps d p (some l) files files1 q t k =
    IsKept-trans files files1 (stage_archives d p l files1).0 q k
      (stage_archives-keeps d p l files1 q t)

-- Restoring the assets changes no file that is there, temporary names aside, whether it succeeds or
-- not: a running binary is never replaced.
pub stage_air_gap_assets_keeps :
    (d : Disk) (p : Paths) (vault : Bool) (archives : Option (List Archive)) (files : Files)
    (q : String)
    → ((dst : String) → str_eq q (d.tmp_name dst) ≡ false)
    → IsKept files (stage_air_gap_assets d p vault archives files).0 q
unfolding stage_air_gap_assets
stage_air_gap_assets_keeps d p vault archives files q t =
    let r = stage_asset d (join_path p.vault_dir "k3s") p.bin_path files in
    let k = stage_asset_keeps d (join_path p.vault_dir "k3s") p.bin_path files q (t p.bin_path) in
    if-elim (λ (x : Files × Bool). IsKept files x.0 q) d.canceled _ _ (λ _. inr refl)
      λ _.
        if-elim (λ (x : Files × Bool). IsKept files x.0 q) vault _ _
          (λ _.
            if-elim (λ (x : Files × Bool). IsKept files x.0 q) r.1 _ _
              (λ _. stage_listed-keeps d p archives files r.0 q t k) (λ _. k))
          (λ _. inr refl)

-- A file is there.
abbrev pub IsPresent : Files → String → Type 0
IsPresent files q = (c : String) × (files q ≡ some c)

-- The path is no temporary name.
abbrev pub IsLasting : Disk → String → Type 0
IsLasting d q = (dst : String) → str_eq q (d.tmp_name dst) ≡ false

-- Where an archive is in the vault, and where K3s looks for it.
abbrev pub vaulted : Paths → Archive → String
vaulted p a = join_path (join_path p.vault_dir "images") a.name

abbrev pub restored : Paths → Archive → String
restored p a = join_path p.images_dir a.name

abbrev pub AreLasting : Disk → Paths → List Archive → Type 0
AreLasting d p [] = Unit {0}
AreLasting d p (a ∷ l) = IsLasting d (vaulted p a) × IsLasting d (restored p a) × AreLasting d p l

-- No archive goes to the path.
abbrev pub IsApart : String → Paths → List Archive → Type 0
IsApart q p [] = Unit {0}
IsApart q p (a ∷ l) = (str_eq (restored p a) q ≡ false) × IsApart q p l

-- No two of them go to the same path.
abbrev pub AreApart : Paths → List Archive → Type 0
AreApart p [] = Unit {0}
AreApart p (a ∷ l) = IsApart (restored p a) p l × AreApart p l

-- What the listing of the vault names is there, where it is a file.
abbrev pub AreListed : Paths → List Archive → Files → Type 0
AreListed p [] files = Unit {0}
AreListed p (a ∷ l) files =
    ((a.is_dir ≡ true) ⊎ IsPresent files (vaulted p a)) × AreListed p l files

-- What is assumed of the listing.
abbrev pub IsListing : Disk → Paths → List Archive → Files → Type 0
IsListing d p l files =
    AreLasting d p l × AreApart p l × IsApart p.bin_path p l × AreListed p l files

abbrev pub IsListingOf : Disk → Paths → Option (List Archive) → Files → Type 0
IsListingOf d p none files = Unit {0}
IsListingOf d p (some l) files = IsListing d p l files

-- Every archive that is a file is staged, from its own copy in the vault.
abbrev pub AreStaged : Paths → List Archive → Files → Files → Type 0
AreStaged p [] before after = Unit {0}
AreStaged p (a ∷ l) before after =
    ((a.is_dir ≡ true) ⊎ IsStaged before after (vaulted p a) (restored p a))
    × AreStaged p l before after

-- What is still to be staged is as it was.
abbrev AreUntouched : Paths → List Archive → Files → Files → Type 0
AreUntouched p [] before now = Unit {0}
AreUntouched p (a ∷ l) before now =
    ((now (restored p a) ≡ before (restored p a))
      × ((a.is_dir ≡ true) ⊎ (now (vaulted p a) ≡ before (vaulted p a))))
    × AreUntouched p l before now

AreUntouched-refl : (p : Paths) (l : List Archive) (files : Files) → AreUntouched p l files files
AreUntouched-refl p [] files = tt
AreUntouched-refl p (a ∷ l) files = ((refl, inr refl), AreUntouched-refl p l files)

source_kept :
    (before now next : Files) (q : String)
    → IsPresent before q
    → now q ≡ before q
    → IsKept now next q
    → next q ≡ before q
source_kept before now next q (c, s) e (inl n) = absurd (ground arith)
source_kept before now next q (c, s) e (inr k) = k ∙ e

-- The staging of another file.
AreUntouched-stage_asset :
    (d : Disk) (p : Paths) (src dst : String) (l : List Archive) (before now : Files)
    → AreLasting d p l
    → IsApart dst p l
    → AreListed p l before
    → AreUntouched p l before now
    → AreUntouched p l before (stage_asset d src dst now).0
AreUntouched-stage_asset d p src dst [] before now t x y u = tt
AreUntouched-stage_asset d p src dst (a ∷ l) before now (t, t', ts) (x, xs) (y, ys) ((e, k), us) = (
  (
    stage_asset_elsewhere d src dst now (restored p a) (t' dst) x ∙ e,
    elim y [
      | inl b ↦ inl b
      | inr there ↦ elim k [
        | inl b ↦ inl b
        | inr same ↦ inr (
            source_kept before now (stage_asset d src dst now).0 (vaulted p a) there same
              (stage_asset_keeps d src dst now (vaulted p a) (t dst)))
      ]
    ],
  ),
  AreUntouched-stage_asset d p src dst l before now ts xs ys us,
)

IsStaged-moved :
    (before now after : Files) (src dst : String)
    → now dst ≡ before dst
    → now src ≡ before src
    → IsStaged now after src dst
    → IsStaged before after src dst
IsStaged-moved before now after src dst e f (c, s, inl h) = (c, s, inl (sym e ∙ h))
IsStaged-moved before now after src dst e f (c, s, inr (n, h)) = (c, s, inr (sym e ∙ n, sym f ∙ h))

IsStaged-later :
    (before now after : Files) (src dst : String)
    → IsKept now after dst
    → IsStaged before now src dst
    → IsStaged before after src dst
IsStaged-later before now after src dst (inl n) (c, s, w) = absurd (ground arith)
IsStaged-later before now after src dst (inr k) (c, s, w) = (c, k ∙ s, w)

abbrev Restores : Paths → List Archive → Files → Files × Bool → Type 0
Restores p l before r = r.1 ≡ true → AreStaged p l before r.0

stage_archives-AreStaged :
    (d : Disk) (p : Paths) (l : List Archive) (before now : Files)
    → AreLasting d p l
    → AreApart p l
    → AreListed p l before
    → AreUntouched p l before now
    → Restores p l before (stage_archives d p l now)
unfolding stage_archives
stage_archives-AreStaged d p [] before now t x y u = λ h. tt
stage_archives-AreStaged d p (a ∷ l) before now (t, t', ts) (x, xs) (y, ys) ((e, k), us) =
    let r = stage_asset d (vaulted p a) (restored p a) now in
    if-elim (Restores p (a ∷ l) before) a.is_dir _ _
      (λ b h. (inl b, stage_archives-AreStaged d p l before now ts xs ys us h))
      λ _.
        if-elim (Restores p (a ∷ l) before) r.1 _ _
          (λ ok h. (
            elim k [
              | inl b ↦ inl b
              | inr same ↦ inr (
                  IsStaged-later before r.0 (stage_archives d p l r.0).0 (vaulted p a)
                    (restored p a) (stage_archives-keeps d p l r.0 (restored p a) t')
                    (IsStaged-moved before now r.0 (vaulted p a) (restored p a) e same (
                      stage_asset-IsStaged d (vaulted p a) (restored p a) now (t' (restored p a))
                        ok)))
            ],
            stage_archives-AreStaged d p l before r.0 ts xs ys
                (AreUntouched-stage_asset d p (vaulted p a) (restored p a) l before now ts x ys us)
                h,
          ))
          (λ _ h. absurd (ground arith))

-- What an installation finds: the binary, and every archive that the vault lists.
abbrev pub IsReady : Paths → Option (List Archive) → Files → Files → Type 0
IsReady p none before after = ⊥
IsReady p (some l) before after =
    IsStaged before after (join_path p.vault_dir "k3s") p.bin_path × AreStaged p l before after

abbrev Prepares : Paths → Option (List Archive) → Files → Files × Bool → Type 0
Prepares p archives before r = r.1 ≡ true → IsReady p archives before r.0

stage_listed-Prepares :
    (d : Disk) (p : Paths) (archives : Option (List Archive)) (files : Files)
    → IsLasting d p.bin_path
    → IsListingOf d p archives files
    → (stage_asset d (join_path p.vault_dir "k3s") p.bin_path files).1 ≡ true
    → Prepares p archives files
        (stage_listed d p archives (stage_asset d (join_path p.vault_dir "k3s") p.bin_path files).0)
unfolding stage_listed
stage_listed-Prepares d p none files t u ok h = absurd (ground arith)
stage_listed-Prepares d p (some l) files t (ts, xs, z, ys) ok h =
    let src = join_path p.vault_dir "k3s" in
    let r = stage_asset d src p.bin_path files in
    (
      IsStaged-later files r.0 (stage_archives d p l r.0).0 src p.bin_path
          (stage_archives-keeps d p l r.0 p.bin_path t)
          (stage_asset-IsStaged d src p.bin_path files (t p.bin_path) ok),
      stage_archives-AreStaged d p l files r.0 ts xs ys
          (AreUntouched-stage_asset d p src p.bin_path l files files ts z ys
            (AreUntouched-refl p l files))
          h,
    )

-- Where no path of a vaulted archive or of what is staged is a temporary name, what the vault lists
-- goes to different paths, none of them the binary's, and its files are there, restoring the assets
-- without an error leaves, where K3s looks for them, the binary and every archive that the vault lists: what was
-- there before, if something was, or else the content of that very file in the vault.
pub stage_air_gap_assets-IsReady :
    (d : Disk) (p : Paths) (vault : Bool) (archives : Option (List Archive)) (files : Files)
    → IsLasting d p.bin_path
    → IsListingOf d p archives files
    → (stage_air_gap_assets d p vault archives files).1 ≡ true
    → IsReady p archives files (stage_air_gap_assets d p vault archives files).0
unfolding stage_air_gap_assets
stage_air_gap_assets-IsReady d p vault archives files t u =
    let r = stage_asset d (join_path p.vault_dir "k3s") p.bin_path files in
    if-elim (Prepares p archives files) d.canceled _ _ (λ _ h. absurd (ground arith))
      λ _.
        if-elim (Prepares p archives files) vault _ _
          (λ _.
            if-elim (Prepares p archives files) r.1 _ _
              (λ ok. stage_listed-Prepares d p archives files t u ok)
              (λ _ h. absurd (ground arith)))
          (λ _ h. absurd (ground arith))
