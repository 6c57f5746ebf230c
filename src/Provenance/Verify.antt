-- ===== src/Provenance/Verify.antt =====
-- provenance/verify_manifest.py: `repo_root` and `main`.
pub mod Entries
pub mod Package
pub mod Laws
pub mod Ends
use swat_letindex_baseline.Prelude.{
  ℕ, suc, ◌+◌, List, [], ◌∷◌, ◌++◌, map, Bool, true, false, not, ◌&&◌, Option, none, some, Text,
  codes, is_empty_text, length, if◌then◌else◌, os_error, Result, ok, err, ◌>>=◌, or_raise,
}
use swat_letindex_baseline.Sorting.{sorted, contains, distinct}
use swat_letindex_baseline.Provenance.Text.{starts_with, text_eq, text_lt}
use swat_letindex_baseline.Provenance.Manifest.{ManifestEntry, parse_manifest}
use swat_letindex_baseline.Provenance.Hash.{Tree, sha256_of}

-- MANIFEST_RELATIVE and FROZEN_PACKAGE
abbrev pub manifest_relative : Text
manifest_relative = codes "provenance/common-substrate.sha256"

abbrev pub frozen_package : Text
frozen_package = codes "codes/src/enhanced_letindex"

-- One constructor for each text that is appended to `failures`.
pub data Problem : Type 0 where
  missing_file : Text → Problem
  hash_mismatch : Text → Text → Text → Problem
  unlisted_file : Text → Problem
  not_in_package : Text → Problem

-- What the check of the entries leaves: `failures` and `verified`.
pub record Checked : Type 0 where
  pub failures : List Problem
  pub verified : ℕ

-- What `main` prints at its end.
pub data Verdict : Type 0 where
  manifest_not_found : Verdict
  not_intact : List Problem → Verdict
  intact : ℕ → ℕ → Verdict

-- The exit status that `main` returns.
abbrev pub status : Verdict → ℕ
status manifest_not_found = 1
status (not_intact problems) = 1
status (intact entries verified) = 0

-- An entry that is checked before the others.
abbrev pub add_outcome : Option Problem → Checked → Checked
add_outcome none later = record { failures = later.failures; verified = suc later.verified }
add_outcome (some problem) later = record {
  failures = problem ∷ later.failures;
  verified = later.verified;
}

-- `f"{FROZEN_PACKAGE.as_posix()}/{name}"`, which is the prefix of the package for an empty name
abbrev pub in_package : Text → Text
in_package name = frozen_package ++ codes "/" ++ name

-- The files of the package that no entry lists.
unfoldable pub unlisted : List Text → List Text → List Problem
unlisted listed [] = []
unlisted listed (relative ∷ present) =
    let rest = unlisted listed present in
    if contains text_eq relative listed then rest else unlisted_file relative ∷ rest

-- The entries of the package that are no files of it.
unfoldable pub absent : List Text → List Text → List Problem
absent present [] = []
absent present (relative ∷ listed) =
    let rest = absent present listed in
    if starts_with (in_package []) relative && not (contains text_eq relative present)
    then not_in_package relative ∷ rest
    else rest

unfoldable pub verdict : ℕ → Checked → Verdict
verdict entries checked = elim checked.failures [
  | [] ↦ intact entries checked.verified
  | problem ∷ problems ↦ not_intact (problem ∷ problems)
]

module _ {P H : Type 0} (tree : Tree P H) where
  unfoldable pub repo_root : Option Text → P
  repo_root none = tree.parent_of_script
  repo_root (some explicit) =
      if is_empty_text explicit then tree.parent_of_script else tree.resolve explicit

  unfoldable pub read_manifest : P → Result (List ManifestEntry)
  read_manifest path = or_raise (tree.read_text path) os_error >>= parse_manifest

  unfoldable pub check_entry : P → ManifestEntry → Result (Option Problem)
  check_entry root entry =
      let target = tree.join root entry.relative in
      if not (tree.is_file target) then ok (some (missing_file entry.relative)) else (do
        actual ← sha256_of tree target
        if text_eq actual entry.digest
            then ok none
            else ok (some (hash_mismatch entry.relative entry.digest actual)))

  unfoldable pub check_entries : P → List ManifestEntry → Result Checked
  unfolding check_entry
  check_entries root [] = ok (record { failures = []; verified = 0 })
  check_entries root (entry ∷ entries) = do
    outcome ← check_entry root entry
    later ← check_entries root entries
    ok (add_outcome outcome later)

  -- The manifest covers the package, and the package has what the manifest lists of it.
  unfoldable pub check_package : P → List ManifestEntry → List Problem
  unfolding unlisted absent
  check_package root entries =
      let package_dir = tree.join root frozen_package in
      let listed = distinct text_eq (map (λ e. e.relative) entries) in
      let present = sorted text_lt (map in_package (tree.glob_py package_dir)) in
      if tree.is_dir package_dir
      then unlisted listed present ++ absent present (sorted text_lt listed)
      else []

  -- `main` with the root that was asked for.
  unfoldable pub main : Option Text → Result Verdict
  unfolding repo_root read_manifest check_entries check_package verdict
  main explicit =
      let root = repo_root explicit in
      let manifest_path = tree.join root manifest_relative in
      if not (tree.is_file manifest_path) then ok manifest_not_found else (do
        entries ← read_manifest manifest_path
        checked ← check_entries root entries
        ok (
            verdict (length entries) (record {
              failures = checked.failures ++ check_package root entries;
              verified = checked.verified;
            })))
