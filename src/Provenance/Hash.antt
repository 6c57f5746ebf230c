-- ===== src/Provenance/Hash.antt =====
-- provenance/verify_manifest.py: what it asks of `pathlib` and `hashlib`, and `sha256_of`.
pub mod Laws
use swat_letindex_baseline.Prelude.{
  ℕ, zero, suc, ◌+◌, ◌^◌, List, [], ◌∷◌, Bool, Option, Text, length, take, drop, out_of_fuel,
  os_error, Result, ok, err, ◌>>=◌, or_raise,
}

-- The working tree and the hash. `P` is a path and `H` the state of a SHA-256 computation; `none` is a
-- read that raises.
pub record Tree (P H : Type 0) : Type 0 where
  -- `Path(explicit).resolve()`, `Path(__file__).resolve().parents[1]` and `path / relative`
  pub resolve : Text → P
  pub parent_of_script : P
  pub join : P → Text → P
  pub is_file : P → Bool
  pub is_dir : P → Bool
  -- `path.read_text(encoding="utf-8")`
  pub read_text : P → Option Text
  -- the whole content of a file that is opened with "rb"
  pub read_bytes : P → Option (List ℕ)
  -- the names of `path.glob("*.py")`
  pub glob_py : P → List Text
  -- `hashlib.sha256()`, `digest.update(chunk)` and `digest.hexdigest()`
  pub sha256 : H
  pub update : H → List ℕ → H
  pub hexdigest : H → Text

-- `1 << 16`
abbrev pub chunk_size : ℕ
chunk_size = 2 ^ 16

module _ {P H : Type 0} (tree : Tree P H) where
  -- The loop over the chunks, up to the empty one. Every other chunk has a byte, so one round more
  -- than there are bytes is enough.
  unfoldable pub chunk_loop : ℕ → List ℕ → H → Result H
  chunk_loop zero bytes digest = err out_of_fuel
  chunk_loop (suc rounds) bytes digest =
      let next =
        chunk_loop rounds (drop chunk_size bytes) (tree.update digest (take chunk_size bytes)) in
      elim bytes [ [] ↦ ok digest | byte ∷ rest ↦ next ]

  unfoldable pub sha256_of : P → Result Text
  unfolding chunk_loop
  sha256_of path = do
    bytes ← or_raise (tree.read_bytes path) os_error
    digest ← chunk_loop (length bytes + 1) bytes tree.sha256
    ok (tree.hexdigest digest)
