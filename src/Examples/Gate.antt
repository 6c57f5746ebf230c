-- ===== src/Examples/Gate.antt =====
-- The theorems on provenance/verify_manifest.py at a small working tree.
use swat_letindex_baseline.Prelude.{
  ◌≡◌, ◌↔◌, refl, List, [], ◌∷◌, none, codes, ok, ◌>>=◌, or_raise, os_error,
}
use swat_letindex_baseline.Sorting.{sorted, insert_sorted, distinct, contains}
use swat_letindex_baseline.Provenance.Text.{
  split_lines, strip, strip_left, strip_right, split, starts_word, is_space, is_line_break, text_eq,
  text_lt, starts_with,
}
use swat_letindex_baseline.Provenance.Manifest.{
  ManifestEntry, parse_manifest, read_lines, read_line, parse_parts,
}
use swat_letindex_baseline.Provenance.Manifest.RoundTrip.{
  print_manifest, parse_manifest-print_manifest,
}
use swat_letindex_baseline.Provenance.Manifest.Laws.{ManifestOutcome, parse_manifest_lem}
use swat_letindex_baseline.Provenance.Hash.{sha256_of, chunk_loop}
use swat_letindex_baseline.Provenance.Hash.Laws.{sha256_of_lem}
use swat_letindex_baseline.Provenance.Verify.{
  Verdict, intact, status, repo_root, main, read_manifest, check_entries, check_entry,
  check_package, unlisted, absent, verdict,
}
use swat_letindex_baseline.Provenance.Verify.Laws.{IsAccepted, main_lem}
use swat_letindex_baseline.Examples.Trees.{
  small_tree, small_tree-UpdateLaws, listed_entry, listed_entry-IsPrintable, file_path,
}

parse_manifest-print_manifest_example :
    parse_manifest (print_manifest (listed_entry ∷ [])) ≡ ok (listed_entry ∷ [])
parse_manifest-print_manifest_example =
    parse_manifest-print_manifest listed_entry [] (listed_entry-IsPrintable, tt)

parse_manifest_example :
    ManifestOutcome (split_lines (codes "\nabc  x.py\n")) (parse_manifest (codes "\nabc  x.py\n"))
parse_manifest_example = parse_manifest_lem (codes "\nabc  x.py\n")

sha256_of_example : sha256_of small_tree file_path ≡ (
    or_raise (small_tree.read_bytes file_path) os_error >>= λ bytes.
    ok (small_tree.hexdigest (small_tree.update small_tree.sha256 bytes)))
sha256_of_example = sha256_of_lem small_tree small_tree-UpdateLaws file_path

main_example :
    ((v : Verdict) × (main small_tree none ≡ ok v) × (status v ≡ 0))
    ↔ ((entries : List ManifestEntry) × IsAccepted small_tree (repo_root small_tree none) entries)
main_example = main_lem small_tree none

-- The small tree is intact.
main_test : main small_tree none ≡ ok (intact 1 1)
unfolding main repo_root read_manifest parse_manifest read_lines read_line parse_parts split_lines
    strip strip_left strip_right split starts_word is_space is_line_break contains text_eq text_lt
    sorted insert_sorted distinct check_entries check_entry sha256_of chunk_loop check_package
    unlisted absent starts_with verdict
main_test = refl
