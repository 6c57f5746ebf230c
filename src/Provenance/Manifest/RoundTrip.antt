-- ===== src/Provenance/Manifest/RoundTrip.antt =====
-- `read_manifest` reads back what `sha256sum` prints: a digest, two spaces and a path per line.
use swat_letindex_baseline.Prelude.{
  ℕ, ◌+◌, ◌≡◌, refl, List, [], ◌∷◌, ◌++◌, false, some, arith, Text, is_empty_text, length, All, ok,
}
use swat_letindex_baseline.Provenance.Text.{split_lines, strip, split}
use swat_letindex_baseline.Provenance.Text.Laws.{
  IsSolid, IsWord, IsUnbroken, IsUnbroken-append, IsUnbroken-of_solid, split_lines-line,
  strip-words, split-columns, spaces-IsUnbroken, append-left_not_empty,
}
use swat_letindex_baseline.Provenance.Manifest.{
  ManifestEntry, parse_parts, read_line, read_lines, parse_manifest,
}

-- The line of an entry, and the manifest of some entries.
abbrev pub line_of : ManifestEntry → Text
line_of entry = entry.digest ++ 32 ∷ 32 ∷ entry.relative

abbrev pub print_manifest : List ManifestEntry → Text
print_manifest [] = []
print_manifest (entry ∷ entries) = line_of entry ++ 10 ∷ print_manifest entries

-- An entry that can stand in a manifest: 64 digits, and a path without white space.
pub record IsPrintable (entry : ManifestEntry) : Type 0 where
  pub digits : length entry.digest ≡ 64
  pub solid : IsSolid entry.digest
  pub word : IsWord entry.relative

digest-IsWord : (entry : ManifestEntry) → IsPrintable entry → IsWord entry.digest
digest-IsWord entry h = (not_empty entry.digest h.digits, h.solid)
  where
    not_empty : (text : Text) → length text ≡ 64 → is_empty_text text ≡ false
    not_empty [] e = absurd (omega arith)
    not_empty (c ∷ cs) e = refl

parse_parts-two :
    (number : ℕ) (line : Text) (entry : ManifestEntry)
    → length entry.digest ≡ 64
    → parse_parts number line (entry.digest ∷ entry.relative ∷ []) ≡ ok entry
unfolding parse_parts
parse_parts-two number line entry h = rw h refl

read_line-parts :
    (number : ℕ) (raw line : Text) (entry : ManifestEntry)
    → strip raw ≡ line
    → is_empty_text line ≡ false
    → split line ≡ entry.digest ∷ entry.relative ∷ []
    → length entry.digest ≡ 64
    → read_line number raw ≡ ok (some entry)
unfolding read_line
read_line-parts number raw line entry stripped full parts digits =
    rw (stripped, full, parts, parse_parts-two number line entry digits) refl

read_line_of :
    (number : ℕ) (entry : ManifestEntry)
    → IsPrintable entry
    → read_line number (line_of entry) ≡ ok (some entry)
read_line_of number entry h =
    let digest = digest-IsWord entry h in
    read_line-parts number (line_of entry) (line_of entry) entry
      (strip-words entry.digest (32 ∷ 32 ∷ []) entry.relative digest h.word)
      (append-left_not_empty entry.digest (32 ∷ 32 ∷ entry.relative) digest.0)
      (split-columns entry.digest entry.relative digest h.word) h.digits

line_of-IsUnbroken : (entry : ManifestEntry) → IsPrintable entry → IsUnbroken (line_of entry)
line_of-IsUnbroken entry h =
    IsUnbroken-append entry.digest (32 ∷ 32 ∷ entry.relative)
      (IsUnbroken-of_solid entry.digest h.solid)
      (spaces-IsUnbroken entry.relative (IsUnbroken-of_solid entry.relative h.word.1))

read_lines_of :
    (number : ℕ) (entries : List ManifestEntry)
    → All IsPrintable entries
    → read_lines number (split_lines (print_manifest entries)) ≡ ok entries
unfolding read_lines split_lines
read_lines_of number [] h = refl
read_lines_of number (entry ∷ entries) (h, hs) =
    rw
      (
        split_lines-line (line_of entry) (print_manifest entries) (line_of-IsUnbroken entry h),
        read_line_of number entry h,
        read_lines_of (number + 1) entries hs,
      )
      refl

-- read_manifest reads back one or more entries that are printed as a digest, two spaces and a
-- path per line, if each digest has 64 characters and neither the digests nor the paths have
-- white space, and no path is empty.
pub parse_manifest-print_manifest :
    (entry : ManifestEntry) (entries : List ManifestEntry)
    → All IsPrintable (entry ∷ entries)
    → parse_manifest (print_manifest (entry ∷ entries)) ≡ ok (entry ∷ entries)
unfolding parse_manifest
parse_manifest-print_manifest entry entries h = rw (read_lines_of 1 (entry ∷ entries) h) refl
