-- ===== src/Provenance/Verify/Laws.antt =====
-- What `main` passes, and that it passes nothing else.
use swat_letindex_baseline.Prelude.{
  ℕ, ◌≡◌, ◌↔◌, refl, List, [], ◌∷◌, ◌++◌, true, Option, Text, length, All, inl, inr, Bool-cases, ok,
  Ensures, Ensures-bind, Ensures-then, Ensures-ok,
}
use swat_letindex_baseline.Provenance.Manifest.{ManifestEntry}
use swat_letindex_baseline.Provenance.Hash.{Tree}
use swat_letindex_baseline.Provenance.Verify.{
  Problem, Checked, Verdict, intact, status, verdict, manifest_relative, repo_root, read_manifest,
  check_entries, check_package, main,
}
use swat_letindex_baseline.Provenance.Verify.Entries.{
  IsVerified, check_entries_sound, check_entries-verified,
}
use swat_letindex_baseline.Provenance.Verify.Package.{IsCovered, check_package-covered}

-- What the checks of `main` come to below a root: its manifest has these entries, every one of which is a
-- file with its digest, and the manifest and the Python files directly in the package list each other.
-- Nothing is asked of the other files of the package, nor of its folders.
pub record IsAccepted {P H : Type 0} (tree : Tree P H) (root : P) (entries : List ManifestEntry)
    : Type 0 where
  pub manifest_found : tree.is_file (tree.join root manifest_relative) ≡ true
  pub manifest_read : read_manifest tree (tree.join root manifest_relative) ≡ ok entries
  pub verified : All (IsVerified tree root) entries
  pub covered : IsCovered tree root entries

verdict_by_failures :
    (entries verified : ℕ) (failures : List Problem)
    → status (verdict entries (record { failures = failures; verified = verified })) ≡ 0
    → failures ≡ []
unfolding verdict
verdict_by_failures entries verified [] h = refl
verdict_by_failures entries verified (problem ∷ problems) h = cc

append-empty_left : {A : Type 0} (xs ys : List A) → xs ++ ys ≡ [] → xs ≡ []
append-empty_left [] ys h = refl
append-empty_left (x ∷ xs) ys h = cc

append-empty_right : {A : Type 0} (xs ys : List A) → xs ++ ys ≡ [] → ys ≡ []
append-empty_right [] ys h = h
append-empty_right (x ∷ xs) ys h = cc

module _ {P H : Type 0} (tree : Tree P H) where
  main-passes :
      (explicit : Option Text) (entries : List ManifestEntry)
      → IsAccepted tree (repo_root tree explicit) entries
      → main tree explicit ≡ ok (intact (length entries) (length entries))
  unfolding main verdict
  main-passes explicit entries h =
      let root = repo_root tree explicit in
      rw
        (
          h.manifest_found,
          h.manifest_read,
          check_entries-verified tree root entries h.verified,
          (check_package-covered tree root entries).1 h.covered,
        )
        refl

  main_sound :
      (explicit : Option Text)
      → Ensures
          (λ v.
            status v ≡ 0
            → (entries : List ManifestEntry) × IsAccepted tree (repo_root tree explicit) entries)
          (main tree explicit)
  unfolding main
  main_sound explicit =
      let root = repo_root tree explicit in
      let path = tree.join root manifest_relative in
      let Q = λ (v : Verdict).
        status v ≡ 0 → (entries : List ManifestEntry) × IsAccepted tree root entries in
      elim (Bool-cases (tree.is_file path)) [
        | inr missing ↦ rw missing (λ h. cc)
        | inl found ↦ rw found (
            Ensures-then Q (read_manifest tree path) _ (λ entries was_read.
              Ensures-bind (λ (c : Checked). c.failures ≡ [] → All (IsVerified tree root) entries) Q
                (check_entries tree root entries) _ (check_entries_sound tree root entries)
                (λ checked _ verified passes.
                  let others = check_package tree root entries in
                  let empty =
                    verdict_by_failures (length entries) checked.verified
                      (checked.failures ++ others) passes in
                  (
                    entries,
                    record {
                      manifest_found = found;
                      manifest_read = was_read;
                      verified = verified (append-empty_left checked.failures others empty);
                      covered =
                          (check_package-covered tree root entries).0
                            (append-empty_right checked.failures others empty);
                    },
                  ))))
      ]

  -- Whatever the working tree, main returns the exit status 0 exactly if its checks hold: the
  -- manifest is a file and reads as a list of entries, every entry names a file with its digest,
  -- and, if the package is a directory, the manifest lists every Python file directly in it, and
  -- every path below the package that the manifest lists is one of these. Other files of the
  -- package, and files in its folders, are not looked for.
  pub main_lem :
      (explicit : Option Text)
      → ((v : Verdict) × (main tree explicit ≡ ok v) × (status v ≡ 0))
        ↔ ((entries : List ManifestEntry) × IsAccepted tree (repo_root tree explicit) entries)
  main_lem explicit = (
    λ h.
        Ensures-ok
          (λ (v : Verdict).
            status v ≡ 0
            → (entries : List ManifestEntry) × IsAccepted tree (repo_root tree explicit) entries)
          (main tree explicit) (main_sound explicit) h.1 h.2,
    λ h. (intact (length h.0) (length h.0), main-passes explicit h.0 h.1, refl),
  )
