-- ===== src/Substrate/Laws.antt =====
-- The order of the keys of the frozen snapshot is total, and their equality is the equality of keys.
use swat_letindex_baseline.Prelude.{ℤ, ◌≡◌, ap, true, false, eqb_ℤ_iff, arith}
use swat_letindex_baseline.Substrate.{RecordKey, BlockId, key_lt, key_eq, block_id_eq}

pub key_lt_asym : (a b : RecordKey) → key_lt a b ≡ true → key_lt b a ≡ false
key_lt_asym a b h = ground arith

pub key_lt_trans : (a b c : RecordKey) → key_lt a b ≡ true → key_lt b c ≡ true → key_lt a c ≡ true
key_lt_trans a b c h k = ground arith

pub key_lt_apart : (a b : RecordKey) → key_lt a b ≡ true → key_eq a b ≡ false
key_lt_apart a b h = ground arith

pub key_lt_total : (a b : RecordKey) → key_eq a b ≡ false → key_lt b a ≡ false → key_lt a b ≡ true
key_lt_total a b h k = ground arith

pub key_eq_refl : (a : RecordKey) → key_eq a a ≡ true
key_eq_refl a = ground arith

pub key_eq_sound : (a b : RecordKey) → key_eq a b ≡ true → a ≡ b
key_eq_sound a b h =
    let as_key : ℤ → RecordKey = λ n. record { value = n } in
    ap as_key ((eqb_ℤ_iff a.value b.value).0 h)

pub block_id_eq_sound : (a b : BlockId) → block_id_eq a b ≡ true → a ≡ b
block_id_eq_sound a b h =
    let as_id : ℤ → BlockId = λ n. record { value = n } in
    ap as_id ((eqb_ℤ_iff a.value b.value).0 h)
