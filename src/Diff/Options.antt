-- ===== src/Diff/Options.antt =====
-- `DiffOptions`, `DeltaLine` and `DiffStats` of crates/sniff-css-diff/src/diff.rs.
use sniff_css.Prelude.{ℕ, String, Bool, Option, List}
use sniff_css.Json.{Value, Serde}

pub record DiffOptions (S : Serde) : Type 0 where
  pub tolerance : S.F64
  pub ignore_props : List String
  pub ignore_structural : Bool

pub record DeltaLine (N : Type 0) : Type 0 where
  pub status : String
  pub selector : String
  pub tag : Option String
  pub path : Option String
  pub depth : Option ℕ
  pub changes : Option (Value N)
  pub snapshot : Option (Value N)

pub record DiffStats : Type 0 where
  pub changed : ℕ
  pub added : ℕ
  pub removed : ℕ
  pub base_nodes : ℕ
  pub head_nodes : ℕ
  pub actions_changed : ℕ

-- `DiffStats::default()`
abbrev pub no_stats : DiffStats
no_stats = record {
  changed = 0;
  added = 0;
  removed = 0;
  base_nodes = 0;
  head_nodes = 0;
  actions_changed = 0;
}
