-- ===== src/Substrate.antt =====
-- The data classes of the frozen LETIndex snapshot that the package reads
-- (codes/src/enhanced_letindex/identifiers.py, record.py, block.py), as far as it reads them.
pub mod Laws
use swat_letindex_baseline.Prelude.{ℤ, List, Bool, ltb_ℤ, leb_ℤ, eqb_ℤ}

pub record RecordKey : Type 0 where
  pub value : ℤ

pub record BlockId : Type 0 where
  pub value : ℤ

-- The package reads the key only; `value` stands for the value, the version and the tombstone.
pub record Record (V : Type 0) : Type 0 where
  pub key : RecordKey
  pub value : V

-- A caller's mutable block, as it is when the package reads it.
pub record Block (V : Type 0) : Type 0 where
  pub block_id : BlockId
  pub capacity : ℤ
  pub records : List (Record V)

-- The order of the dataclass `RecordKey(order=True)`, and the equality of keys and block ids.
abbrev pub key_lt : RecordKey → RecordKey → Bool
key_lt a b = ltb_ℤ a.value b.value

abbrev pub key_le : RecordKey → RecordKey → Bool
key_le a b = leb_ℤ a.value b.value

abbrev pub key_eq : RecordKey → RecordKey → Bool
key_eq a b = eqb_ℤ a.value b.value

abbrev pub block_id_eq : BlockId → BlockId → Bool
block_id_eq a b = eqb_ℤ a.value b.value
