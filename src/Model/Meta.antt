-- ===== src/Model/Meta.antt =====
-- crates/model/src/meta.rs: the metadata of a persistent resource. Times are microseconds.
use vquasar.Base.{ℕ, ◌+◌, String}

abbrev pub initial_generation : ℕ
initial_generation = 1

pub record Metadata : Type 0 where
  pub name : String
  pub created_at : ℕ
  pub updated_at : ℕ
  pub generation : ℕ

unfoldable pub new_metadata : String → ℕ → Metadata
new_metadata name now = record {
  name = name;
  created_at = now;
  updated_at = now;
  generation = initial_generation;
}

unfoldable pub touch_spec : ℕ → Metadata → Metadata
touch_spec now meta = record meta { generation = meta.generation + 1; updated_at = now }
