-- ===== src/Provenance/Verify/Entries.antt =====
-- `main`, its first loop: every entry is checked against the file that it names.
use swat_letindex_baseline.Prelude.{
  ◌≡◌, refl, ap, List, [], ◌∷◌, true, Option, none, some, length, All, inl, inr, Bool-cases,
  if◌then◌else◌, Result, ok, err, ◌>>=◌, Ensures, Ensures-bind, Ensures-map, Text,
}
use swat_letindex_baseline.Provenance.Text.{text_eq}
use swat_letindex_baseline.Provenance.Text.Laws.{text_eq_sound, text_eq_refl}
use swat_letindex_baseline.Provenance.Manifest.{ManifestEntry}
use swat_letindex_baseline.Provenance.Hash.{Tree, sha256_of}
use swat_letindex_baseline.Provenance.Verify.{
  Problem, Checked, add_outcome, hash_mismatch, check_entry, check_entries,
}

module _ {P H : Type 0} (tree : Tree P H) (root : P) where
  -- The file of an entry is there and has its digest.
  abbrev pub IsVerified : ManifestEntry → Type 0
  IsVerified entry =
      let target = tree.join root entry.relative in
      (tree.is_file target ≡ true) × (sha256_of tree target ≡ ok entry.digest)

  hash_outcome :
      (entry : ManifestEntry) (r : Result Text)
      → Ensures
          (λ o. o ≡ none → r ≡ ok entry.digest)
          (r >>= λ actual.
            if text_eq actual entry.digest
            then ok none
            else ok (some (hash_mismatch entry.relative entry.digest actual)))
  hash_outcome entry (err e) = tt
  hash_outcome entry (ok actual) = elim (Bool-cases (text_eq actual entry.digest)) [
    | inl same ↦ rw same (λ _. ap ok (text_eq_sound actual entry.digest same))
    | inr differ ↦ rw differ (λ e. cc)
  ]

  check_entry_sound :
      (entry : ManifestEntry)
      → Ensures (λ o. o ≡ none → IsVerified entry) (check_entry tree root entry)
  unfolding check_entry
  check_entry_sound entry = elim (Bool-cases (tree.is_file (tree.join root entry.relative))) [
    | inr missing ↦ rw missing (λ e. cc)
    | inl found ↦ rw found (
        Ensures-map
          (λ (o : Option Problem).
            o ≡ none → sha256_of tree (tree.join root entry.relative) ≡ ok entry.digest)
          (λ (o : Option Problem).
            o ≡ none
            → (true ≡ true) × (sha256_of tree (tree.join root entry.relative) ≡ ok entry.digest))
          _ (hash_outcome entry (sha256_of tree (tree.join root entry.relative)))
          (λ o _ h e. (refl, h e)))
  ]

  check_entry-verified :
      (entry : ManifestEntry) → IsVerified entry → check_entry tree root entry ≡ ok none
  unfolding check_entry
  check_entry-verified entry (found, hash) = rw (found, hash, text_eq_refl entry.digest) refl

  add_outcome-empty :
      (entry : ManifestEntry) (entries : List ManifestEntry) (outcome : Option Problem)
      (later : Checked)
      → (outcome ≡ none → IsVerified entry)
      → (later.failures ≡ [] → All IsVerified entries)
      → (add_outcome outcome later).failures ≡ []
      → All IsVerified (entry ∷ entries)
  add_outcome-empty entry entries none later here rest e = (here refl, rest e)
  add_outcome-empty entry entries (some problem) later here rest e = cc

  -- If the loop ends without a failure, every entry is verified.
  pub check_entries_sound :
      (entries : List ManifestEntry)
      → Ensures (λ c. c.failures ≡ [] → All IsVerified entries) (check_entries tree root entries)
  unfolding check_entries
  check_entries_sound [] = λ e. tt
  check_entries_sound (entry ∷ entries) =
      let Q = λ (c : Checked). c.failures ≡ [] → All IsVerified (entry ∷ entries) in
      Ensures-bind (λ (o : Option Problem). o ≡ none → IsVerified entry) Q
        (check_entry tree root entry) _ (check_entry_sound entry)
        (λ outcome _ here.
          Ensures-bind (λ (c : Checked). c.failures ≡ [] → All IsVerified entries) Q
            (check_entries tree root entries) _ (check_entries_sound entries)
            (λ later _ rest. add_outcome-empty entry entries outcome later here rest))

  -- Entries that are all verified leave no failure, and are all counted.
  pub check_entries-verified :
      (entries : List ManifestEntry)
      → All IsVerified entries
      → check_entries tree root entries ≡ ok (record { failures = []; verified = length entries })
  unfolding check_entries
  check_entries-verified [] h = refl
  check_entries-verified (entry ∷ entries) (h, hs) =
      rw (check_entry-verified entry h, check_entries-verified entries hs) refl
