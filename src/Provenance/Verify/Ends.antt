-- ===== src/Provenance/Verify/Ends.antt =====
-- What `main` raises: the exit of a bad manifest, or the error of a read.
use swat_letindex_baseline.Prelude.{
  ◌≡◌, true, none, some, ◌⊎◌, Text, Error, malformed_manifest_line, empty_manifest, os_error, err,
}
use swat_letindex_baseline.Provenance.Manifest.{parse_manifest}
use swat_letindex_baseline.Provenance.Hash.{Tree}
use swat_letindex_baseline.Provenance.Verify.{manifest_relative}

-- The text of the manifest, whose reading raises this.
abbrev pub IsRefused : {P H : Type 0} → Tree P H → P → Error → Type 0
IsRefused tree path e =
    (text : Text) × (tree.read_text path ≡ some text) × (parse_manifest text ≡ err e)

-- The files that are read below a root: the manifest, and those that are found for its entries.
abbrev pub IsUnreadable : {P H : Type 0} → Tree P H → P → Type 0
IsUnreadable tree root =
    (tree.read_text (tree.join root manifest_relative) ≡ none)
    ⊎ ((relative : Text) × (tree.is_file (tree.join root relative) ≡ true)
        × (tree.read_bytes (tree.join root relative) ≡ none))

-- An exception with its reason: a text of the manifest that is refused in this way, or a file that cannot
-- be read.
abbrev pub IsExplained : {P H : Type 0} → Tree P H → P → Error → Type 0
IsExplained tree root (malformed_manifest_line n line) =
    IsRefused tree (tree.join root manifest_relative) (malformed_manifest_line n line)
IsExplained tree root empty_manifest =
    IsRefused tree (tree.join root manifest_relative) empty_manifest
IsExplained tree root os_error = IsUnreadable tree root
IsExplained tree root _ = ⊥
