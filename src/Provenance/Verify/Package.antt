-- ===== src/Provenance/Verify/Package.antt =====
-- `main`, its second part: the manifest and the files of the frozen package list each other.
use swat_letindex_baseline.Prelude.{
  ◌≡◌, ◌↔◌, refl, List, [], ◌∷◌, ◌++◌, map, Bool, true, inl, inr, Bool-cases, All, Any, Text,
}
use swat_letindex_baseline.Sorting.{sorted, contains, distinct}
use swat_letindex_baseline.Sorting.Members.{
  sorted-All, sorted-Any, distinct-All, distinct-Any, contains_iff, map-Any, map-All, All-imp,
}
use swat_letindex_baseline.Provenance.Text.{starts_with, text_eq, text_lt}
use swat_letindex_baseline.Provenance.Text.Laws.{text_eq_sound, text_eq_refl}
use swat_letindex_baseline.Provenance.Manifest.{ManifestEntry}
use swat_letindex_baseline.Provenance.Hash.{Tree}
use swat_letindex_baseline.Provenance.Verify.{
  frozen_package, in_package, unlisted, absent, check_package,
}

abbrev is_in : Text → List Text → Bool
is_in = contains text_eq

-- Some entry names this path.
abbrev pub IsListed : List ManifestEntry → Text → Type 0
IsListed entries relative = Any (λ entry. entry.relative ≡ relative) entries

-- A path below the package is one of these names in it.
abbrev pub IsNamed : List Text → Text → Type 0
IsNamed names relative =
    starts_with (in_package []) relative ≡ true → Any (λ name. in_package name ≡ relative) names

unlisted-empty :
    (listed present : List Text)
    → (unlisted listed present ≡ []) ↔ All (λ relative. is_in relative listed ≡ true) present
unfolding unlisted
unlisted-empty listed [] = (λ h. tt, λ h. refl)
unlisted-empty listed (relative ∷ present) =
    let later = unlisted-empty listed present in
    elim (Bool-cases (is_in relative listed)) [
      | inl found ↦ rw found (λ h. (refl, later.0 h), λ h. later.1 h.1)
      | inr missing ↦ rw missing (λ h. cc, λ h. cc (h.0))
    ]

absent-empty :
    (present listed : List Text)
    → (absent present listed ≡ [])
      ↔ All
          (λ relative. starts_with (in_package []) relative ≡ true → is_in relative present ≡ true)
          listed
unfolding absent
absent-empty present [] = (λ h. tt, λ h. refl)
absent-empty present (relative ∷ listed) =
    let later = absent-empty present listed in
    elim (Bool-cases (starts_with (in_package []) relative)) [
      | inr outside ↦ rw outside (λ h. (λ e. cc, later.0 h), λ h. later.1 h.1)
      | inl inside ↦ elim (Bool-cases (is_in relative present)) [
        | inl found ↦ rw (inside, found) (λ h. (λ _. refl, later.0 h), λ h. later.1 h.1)
        | inr missing ↦ rw (inside, missing) (λ h. cc, λ h. cc (h.0 refl))
      ]
    ]

module _ {P H : Type 0} (tree : Tree P H) (root : P) (entries : List ManifestEntry) where
  abbrev names : List Text
  names = tree.glob_py (tree.join root frozen_package)

  abbrev listed : List Text
  listed = distinct text_eq (map (λ e. e.relative) entries)

  abbrev present : List Text
  present = sorted text_lt (map in_package names)

  -- The manifest lists every Python file directly in the package, and every file below the package that the
  -- manifest lists is one of those.
  abbrev pub IsCovered : Type 0
  IsCovered =
      tree.is_dir (tree.join root frozen_package) ≡ true
      → All (λ name. IsListed entries (in_package name)) names
        × All (λ entry. IsNamed names entry.relative) entries

  is_in-listed : (relative : Text) → (is_in relative listed ≡ true) ↔ IsListed entries relative
  is_in-listed relative =
      let found = contains_iff text_eq text_eq_sound text_eq_refl relative listed in
      let once =
        distinct-Any text_eq (λ y. y ≡ relative) text_eq_sound (map (λ e. e.relative) entries) in
      let mapped = map-Any (λ (e : ManifestEntry). e.relative) (λ y. y ≡ relative) entries in
      (λ h. mapped.0 (once.0 (found.0 h)), λ h. found.1 (once.1 (mapped.1 h)))

  is_in-present :
      (relative : Text)
      → (is_in relative present ≡ true) ↔ Any (λ name. in_package name ≡ relative) names
  is_in-present relative =
      let found = contains_iff text_eq text_eq_sound text_eq_refl relative present in
      let moved = sorted-Any text_lt (λ y. y ≡ relative) (map in_package names) in
      let mapped = map-Any in_package (λ y. y ≡ relative) names in
      (λ h. mapped.0 (moved.0 (found.0 h)), λ h. found.1 (moved.1 (mapped.1 h)))

  unlisted-covered :
      (unlisted listed present ≡ []) ↔ All (λ name. IsListed entries (in_package name)) names
  unlisted-covered =
      let none_left = unlisted-empty listed present in
      let moved = sorted-All text_lt (λ r. is_in r listed ≡ true) (map in_package names) in
      let mapped = map-All in_package (λ r. is_in r listed ≡ true) names in
      (
        λ h.
            All-imp (λ name k. (is_in-listed (in_package name)).0 k) names
              (mapped.0 (moved.0 (none_left.0 h))),
        λ h.
            none_left.1 (
              moved.1
                (mapped.1 (All-imp (λ name k. (is_in-listed (in_package name)).1 k) names h))),
      )

  absent-covered :
      (absent present (sorted text_lt listed) ≡ [])
      ↔ All (λ entry. IsNamed names entry.relative) entries
  absent-covered =
      let Q = λ (r : Text). starts_with (in_package []) r ≡ true → is_in r present ≡ true in
      let none_left = absent-empty present (sorted text_lt listed) in
      let moved = sorted-All text_lt Q listed in
      let once = distinct-All text_eq Q text_eq_sound (map (λ e. e.relative) entries) in
      let mapped = map-All (λ (e : ManifestEntry). e.relative) Q entries in
      (
        λ h.
            All-imp (λ entry k inside. (is_in-present entry.relative).0 (k inside)) entries
              (mapped.0 (once.0 (moved.0 (none_left.0 h)))),
        λ h. none_left.1 (
            moved.1 (
              once.1 (
                mapped.1 (
                  All-imp (λ entry k inside. (is_in-present entry.relative).1 (k inside)) entries
                    h)))),
      )

  append-empty : {A : Type 0} (xs ys : List A) → (xs ++ ys ≡ []) ↔ ((xs ≡ []) × (ys ≡ []))
  append-empty [] ys = (λ h. (refl, h), λ h. h.1)
  append-empty (x ∷ xs) ys = (λ h. cc, λ h. cc (h.0))

  pub check_package-covered : (check_package tree root entries ≡ []) ↔ IsCovered
  unfolding check_package
  check_package-covered = elim (Bool-cases (tree.is_dir (tree.join root frozen_package))) [
    | inr missing ↦ rw missing (λ h. λ e. cc, λ h. refl)
    | inl found ↦
        let both =
          append-empty (unlisted listed present) (absent present (sorted text_lt listed)) in
        rw found (
          λ h. λ _. (unlisted-covered.0 (both.0 h).0, absent-covered.0 (both.0 h).1),
          λ h. both.1 (unlisted-covered.1 (h refl).0, absent-covered.1 (h refl).1),
        )
  ]
