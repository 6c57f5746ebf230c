-- ===== src/Provenance/Hash/Laws.antt =====
-- `sha256_of` hashes the whole file, whatever the size of its chunks.
use swat_letindex_baseline.Prelude.{
  ℕ, zero, suc, ◌+◌, ◌<◌, ◌≡◌, refl, ap, sym, ◌∙◌, List, [], ◌∷◌, ◌++◌, arith, Option-cases, inl,
  inr, length, take, drop, length-drop, take-append-drop, os_error, ok, ◌>>=◌, or_raise,
}
use swat_letindex_baseline.Provenance.Hash.{Tree, chunk_size, chunk_loop, sha256_of}

-- What `hashlib` documents of `update`: repeated calls are one call with the chunks in a row.
pub record UpdateLaws {P H : Type 0} (tree : Tree P H) : Type 0 where
  pub update_twice :
      (digest : H) (a b : List ℕ)
      → tree.update (tree.update digest a) b ≡ tree.update digest (a ++ b)
  pub update_nothing : (digest : H) → tree.update digest [] ≡ digest

module _ {P H : Type 0} (tree : Tree P H) (laws : UpdateLaws tree) where
  chunk_loop_lem :
      (rounds : ℕ) (bytes : List ℕ) (digest : H)
      → length bytes < rounds
      → chunk_loop tree rounds bytes digest ≡ ok (tree.update digest bytes)
  unfolding chunk_loop
  chunk_loop_lem zero bytes digest h = absurd (omega arith)
  chunk_loop_lem (suc rounds) [] digest h = ap ok (sym (laws.update_nothing digest))
  chunk_loop_lem (suc rounds) (byte ∷ rest) digest h =
      let bytes = byte ∷ rest in
      chunk_loop_lem rounds (drop chunk_size bytes) (tree.update digest (take chunk_size bytes))
        (omega (arith, length-drop chunk_size bytes))
      ∙ ap ok (laws.update_twice digest (take chunk_size bytes) (drop chunk_size bytes))
      ∙ ap (λ whole. ok (tree.update digest whole)) (take-append-drop chunk_size bytes)

  -- If repeated updates of a hash are one update with the chunks in a row, sha256_of gives the
  -- hash of the whole content of the file, in one update, or raises what reading the file raises.
  pub sha256_of_lem :
      (path : P)
      → sha256_of tree path ≡ (
          or_raise (tree.read_bytes path) os_error >>= λ bytes.
          ok (tree.hexdigest (tree.update tree.sha256 bytes)))
  unfolding sha256_of
  sha256_of_lem path = elim (Option-cases (tree.read_bytes path)) [
    | inl missing ↦ rw missing refl
    | inr (bytes, content) ↦
        rw (content, chunk_loop_lem (length bytes + 1) bytes tree.sha256 (omega arith)) refl
  ]
