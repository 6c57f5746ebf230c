-- ===== src/Examples/Trees.antt =====
-- A working tree with a manifest of one file, for the theorems on provenance/verify_manifest.py.
use mathlib.Core.List.{append-nil, append_assoc}
use swat_letindex_baseline.Prelude.{
  ℕ, ◌≡◌, refl, List, [], ◌∷◌, ◌++◌, Bool, not, ◌&&◌, arith, true, ◌||◌, Option, none, some, Text,
  codes, take, replicate, if◌then◌else◌,
}
use swat_letindex_baseline.Provenance.Text.{is_line_break, is_space, text_eq}
use swat_letindex_baseline.Provenance.Text.Laws.{IsSolid}
use swat_letindex_baseline.Provenance.Manifest.{ManifestEntry}
use swat_letindex_baseline.Provenance.Manifest.RoundTrip.{print_manifest, IsPrintable}
use swat_letindex_baseline.Provenance.Hash.{Tree}
use swat_letindex_baseline.Provenance.Hash.Laws.{UpdateLaws}
use swat_letindex_baseline.Sorting.{contains}

-- A hash that is the content itself, cut and filled up to 64 characters.
abbrev pub filled_up : List ℕ → Text
filled_up bytes = take 64 (bytes ++ replicate 64 b'0')

abbrev pub file_content : List ℕ
file_content = codes "x=1"

abbrev pub listed_entry : ManifestEntry
listed_entry = record {
  digest = filled_up file_content;
  relative = codes "codes/src/enhanced_letindex/a.py";
}

abbrev pub under : Text → Text → Text
under root relative = root ++ codes "/" ++ relative

abbrev pub manifest_path : Text
manifest_path = codes "repo/provenance/common-substrate.sha256"

abbrev pub file_path : Text
file_path = codes "repo/codes/src/enhanced_letindex/a.py"

abbrev pub is_manifest : Text → Option Text
is_manifest path =
    if text_eq path manifest_path then some (print_manifest (listed_entry ∷ [])) else none

abbrev pub small_tree : Tree Text (List ℕ)
small_tree = record {
  resolve = λ explicit. explicit;
  parent_of_script = codes "repo";
  join = under;
  is_file = λ path. text_eq path manifest_path || text_eq path file_path;
  is_dir = λ path. text_eq path (codes "repo/codes/src/enhanced_letindex");
  read_text = is_manifest;
  read_bytes = λ path. if text_eq path file_path then some file_content else none;
  glob_py = λ path. codes "a.py" ∷ [];
  sha256 = [];
  update = λ digest chunk. digest ++ chunk;
  hexdigest = filled_up;
}

pub small_tree-UpdateLaws : UpdateLaws small_tree
small_tree-UpdateLaws = record {
  update_twice = λ digest a b. append_assoc digest a b;
  update_nothing = λ digest. append-nil digest;
}

abbrev is_solid : Text → Bool
is_solid [] = true
is_solid (c ∷ cs) = not (is_space c) && is_solid cs

IsSolid-of_test : (text : Text) → is_solid text ≡ true → IsSolid text
IsSolid-of_test [] h = tt
IsSolid-of_test (c ∷ cs) h = (ground arith, IsSolid-of_test cs (ground arith))

pub listed_entry-IsPrintable : IsPrintable listed_entry
unfolding is_space is_line_break contains
listed_entry-IsPrintable = record {
  digits = refl;
  solid = IsSolid-of_test listed_entry.digest refl;
  word = (refl, IsSolid-of_test listed_entry.relative refl);
}
