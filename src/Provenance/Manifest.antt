-- ===== src/Provenance/Manifest.antt =====
-- provenance/verify_manifest.py: `read_manifest`.
pub mod RoundTrip
pub mod Laws
use swat_letindex_baseline.Prelude.{
  ℕ, ◌+◌, List, [], ◌∷◌, Option, none, some, Text, is_empty_text, length, ◌==◌, if◌then◌else◌,
  malformed_manifest_line, empty_manifest, os_error, Error, Result, ok, err, ◌>>=◌, or_raise,
}
use swat_letindex_baseline.Provenance.Text.{split_lines, strip, split}

-- The two columns of a line.
pub record ManifestEntry : Type 0 where
  pub digest : Text
  pub relative : Text

unfoldable pub parse_parts : ℕ → Text → List Text → Result ManifestEntry
parse_parts number line (digest ∷ relative ∷ []) =
    if length digest == 64
    then ok (record { digest = digest; relative = relative })
    else err (malformed_manifest_line number line)
parse_parts number line _ = err (malformed_manifest_line number line)

-- The entry of a line, `none` for a blank one.
unfoldable pub read_line : ℕ → Text → Result (Option ManifestEntry)
unfolding parse_parts
read_line number raw =
    let line = strip raw in
    if is_empty_text line
    then ok none
    else (parse_parts number line (split line) >>= λ entry. ok (some entry))

abbrev pub keep : Option ManifestEntry → List ManifestEntry → List ManifestEntry
keep none entries = entries
keep (some entry) entries = entry ∷ entries

-- The lines from `number` on.
unfoldable pub read_lines : ℕ → List Text → Result (List ManifestEntry)
unfolding read_line
read_lines number [] = ok []
read_lines number (raw ∷ lines) = do
  entry ← read_line number raw
  entries ← read_lines (number + 1) lines
  ok (keep entry entries)

abbrev pub refuse_empty : List ManifestEntry → Result (List ManifestEntry)
refuse_empty [] = err empty_manifest
refuse_empty (entry ∷ entries) = ok (entry ∷ entries)

unfoldable pub parse_manifest : Text → Result (List ManifestEntry)
unfolding read_lines
parse_manifest text = read_lines 1 (split_lines text) >>= refuse_empty
