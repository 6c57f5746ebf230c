-- ===== src/Provenance/Manifest/Laws.antt =====
-- What `read_manifest` accepts and refuses.
use swat_letindex_baseline.Prelude.{
  ℕ, suc, ◌+◌, ◌≡◌, ◌≢◌, refl, ap, List, [], ◌∷◌, ◌++◌, true, false, Option, none, some, arith,
  Text, is_empty_text, length, All, ==_iff, ◌==◌, ◌⊎◌, inl, inr, Bool-cases, Error,
  malformed_manifest_line, empty_manifest, Result, ok, err, ◌>>=◌,
}
use swat_letindex_baseline.Provenance.Text.{split_lines, strip, split}
use swat_letindex_baseline.Provenance.Text.Laws.{IsWord, split-IsWord}
use swat_letindex_baseline.Provenance.Manifest.{
  ManifestEntry, parse_parts, read_line, keep, read_lines, refuse_empty, parse_manifest,
}
use swat_letindex_baseline.Provenance.Manifest.RoundTrip.{IsPrintable}

-- A line of two columns, the first of 64 characters.
abbrev pub IsEntryLine : Text → ManifestEntry → Type 0
IsEntryLine raw entry =
    (split (strip raw) ≡ entry.digest ∷ entry.relative ∷ []) × (length entry.digest ≡ 64)

-- Neither blank nor the line of an entry.
abbrev pub IsMalformed : Text → Type 0
IsMalformed raw = (strip raw ≢ []) × ((entry : ManifestEntry) → ¬ IsEntryLine raw entry)

-- The entries of some lines, in their order, blank lines left out.
pub data Reads : List Text → List ManifestEntry → Type 0 where
  no_line : Reads [] []
  blank_line :
      (raw : Text) {lines : List Text} {entries : List ManifestEntry}
      → strip raw ≡ []
      → Reads lines entries
      → Reads (raw ∷ lines) entries
  entry_line :
      (raw : Text) (entry : ManifestEntry) {lines : List Text} {entries : List ManifestEntry}
      → IsEntryLine raw entry
      → Reads lines entries
      → Reads (raw ∷ lines) (entry ∷ entries)

-- The first malformed line of some lines that are counted from `number` on is refused.
pub record IsRefusal (number : ℕ) (lines : List Text) (e : Error) : Type 0 where
  pub before : List Text
  pub entries : List ManifestEntry
  pub raw : Text
  pub after : List Text
  pub parts : lines ≡ before ++ (raw ∷ after)
  pub accepted : Reads before entries
  pub malformed : IsMalformed raw
  pub refused : e ≡ malformed_manifest_line (number + length before) (strip raw)

-- What reading one line does.
abbrev LineOutcome : ℕ → Text → Result (Option ManifestEntry) → Type 0
LineOutcome number raw (ok none) = strip raw ≡ []
LineOutcome number raw (ok (some entry)) = IsEntryLine raw entry
LineOutcome number raw (err e) = IsMalformed raw × (e ≡ malformed_manifest_line number (strip raw))

abbrev LinesOutcome : ℕ → List Text → Result (List ManifestEntry) → Type 0
LinesOutcome number lines (ok entries) = Reads lines entries
LinesOutcome number lines (err e) = IsRefusal number lines e

abbrev PartsOutcome : ℕ → Text → List Text → Result ManifestEntry → Type 0
PartsOutcome number line parts (ok entry) =
    (parts ≡ entry.digest ∷ entry.relative ∷ []) × (length entry.digest ≡ 64)
PartsOutcome number line parts (err e) =
    ((entry : ManifestEntry)
      → parts ≡ entry.digest ∷ entry.relative ∷ []
      → length entry.digest ≢ 64)
    × (e ≡ malformed_manifest_line number line)

abbrev first_length : List Text → ℕ
first_length [] = 0
first_length (part ∷ parts) = length part

parse_parts_lem :
    (number : ℕ) (line : Text) (parts : List Text)
    → PartsOutcome number line parts (parse_parts number line parts)
unfolding parse_parts
parse_parts_lem number line [] = (λ entry e. cc, refl)
parse_parts_lem number line (a ∷ []) = (λ entry e. cc, refl)
parse_parts_lem number line (a ∷ b ∷ c ∷ rest) = (λ entry e. cc, refl)
parse_parts_lem number line (a ∷ b ∷ []) = elim (Bool-cases (length a == 64)) [
  | inl full ↦ rw full (refl, (==_iff (length a) 64).0 full)
  | inr short ↦ rw short (
    λ entry e full. let same : length a ≡ length entry.digest = ap first_length e in ground arith,
    refl,
  )
]

entry_outcome :
    (number : ℕ) (raw : Text) (r : Result ManifestEntry)
    → strip raw ≢ []
    → PartsOutcome number (strip raw) (split (strip raw)) r
    → LineOutcome number raw (r >>= λ entry. ok (some entry))
entry_outcome number raw (ok entry) full h = h
entry_outcome number raw (err e) full (bad, refused) =
    ((full, λ entry h. bad entry h.0 h.1), refused)

empty_text : (text : Text) → is_empty_text text ≡ true → text ≡ []
empty_text [] h = refl
empty_text (c ∷ cs) h = cc

full_text : (text : Text) → is_empty_text text ≡ false → text ≢ []
full_text text h e = cc (rw e at h)

read_line_lem : (number : ℕ) (raw : Text) → LineOutcome number raw (read_line number raw)
unfolding read_line
read_line_lem number raw = elim (Bool-cases (is_empty_text (strip raw))) [
  | inl blank ↦ rw blank (empty_text (strip raw) blank)
  | inr full ↦ rw full (
      entry_outcome number raw (parse_parts number (strip raw) (split (strip raw)))
        (full_text (strip raw) full) (parse_parts_lem number (strip raw) (split (strip raw))))
]

keep-Reads :
    (number : ℕ) (raw : Text) (lines : List Text) (outcome : Option ManifestEntry)
    (entries : List ManifestEntry)
    → LineOutcome number raw (ok outcome)
    → Reads lines entries
    → Reads (raw ∷ lines) (keep outcome entries)
keep-Reads number raw lines none entries blank h = blank_line raw blank h
keep-Reads number raw lines (some entry) entries line h = entry_line raw entry line h

lines_step :
    (number : ℕ) (raw : Text) (lines : List Text) (r : Result (Option ManifestEntry))
    (rs : Result (List ManifestEntry))
    → LineOutcome number raw r
    → LinesOutcome (number + 1) lines rs
    → LinesOutcome number (raw ∷ lines) (r >>= λ entry. rs >>= λ entries. ok (keep entry entries))
lines_step number raw lines (err e) rs (malformed, refused) later = record {
  before = [];
  entries = [];
  raw = raw;
  after = lines;
  parts = refl;
  accepted = no_line;
  malformed = malformed;
  refused = let z : number + 0 ≡ number = omega arith in rw z refused;
}
lines_step number raw lines (ok outcome) (ok entries) line later =
    keep-Reads number raw lines outcome entries line later
lines_step number raw lines (ok outcome) (err e) line later = record {
  before = raw ∷ later.before;
  entries = keep outcome later.entries;
  raw = later.raw;
  after = later.after;
  parts = ap (λ rest. raw ∷ rest) later.parts;
  accepted = keep-Reads number raw later.before outcome later.entries line later.accepted;
  malformed = later.malformed;
  refused =
      let z : number + 1 + length later.before ≡ number + suc (length later.before) = omega arith in
      rw z at later.refused;
}

read_lines_lem :
    (number : ℕ) (lines : List Text) → LinesOutcome number lines (read_lines number lines)
unfolding read_lines
read_lines_lem number [] = no_line
read_lines_lem number (raw ∷ lines) =
    lines_step number raw lines (read_line number raw) (read_lines (number + 1) lines)
      (read_line_lem number raw) (read_lines_lem (number + 1) lines)

Reads-IsPrintable :
    (lines : List Text) (entries : List ManifestEntry)
    → Reads lines entries
    → All IsPrintable entries
Reads-IsPrintable lines entries no_line = tt
Reads-IsPrintable lines entries (blank_line raw blank h) = Reads-IsPrintable _ entries h
Reads-IsPrintable lines entries (entry_line raw entry (parts, digits) h) =
    let words : All IsWord (entry.digest ∷ entry.relative ∷ []) =
      rw parts at (split-IsWord (strip raw)) in
    (record { digits = digits; solid = words.0.1; word = words.1.0 }, Reads-IsPrintable _ _ h)

-- What a manifest of some text comes to.
abbrev pub ManifestOutcome : List Text → Result (List ManifestEntry) → Type 0
ManifestOutcome lines (ok entries) = (entries ≢ []) × Reads lines entries × All IsPrintable entries
ManifestOutcome lines (err e) = IsRefusal 1 lines e ⊎ ((e ≡ empty_manifest) × Reads lines [])

refuse_empty_lem :
    (lines : List Text) (r : Result (List ManifestEntry))
    → LinesOutcome 1 lines r
    → ManifestOutcome lines (r >>= refuse_empty)
refuse_empty_lem lines (err e) h = inl h
refuse_empty_lem lines (ok []) h = inr (refl, h)
refuse_empty_lem lines (ok (entry ∷ entries)) h =
    (λ e. cc, h, Reads-IsPrintable lines (entry ∷ entries) h)

-- For any text, read_manifest either returns the entries of its lines in order, blank lines left
-- out, at least one, each with a digest of 64 characters and a path without white space, or
-- raises: for the first malformed line with its number counted from 1, or because there is no
-- entry.
pub parse_manifest_lem : (text : Text) → ManifestOutcome (split_lines text) (parse_manifest text)
unfolding parse_manifest
parse_manifest_lem text =
    refuse_empty_lem (split_lines text) (read_lines 1 (split_lines text))
      (read_lines_lem 1 (split_lines text))
