-- ===== src/Model/Node.antt =====
-- `DiffNode` of crates/sniff-css-diff/src/model.rs, split into its own fields and its children.
use sniff_css.Prelude.{ℕ, String, Option, List, [], ◌∷◌}
use sniff_css.Json.{Value, Map}

pub record NodeInfo (N : Type 0) : Type 0 where
  pub id : ℕ
  pub parent_id : Option ℕ
  pub selector : String
  pub tag : Option String
  pub path : Option String
  pub depth : Option ℕ
  pub rect : Option (Value N)
  pub metrics : Option (Value N)
  pub noticeable : Option (Value N)
  pub hash : Option String
  pub styles : Option (Map N)
  pub pseudo : Option (Map N)
  pub aria : Option (Value N)
  pub contrast : Option (Value N)
  pub ax : Option (Value N)
  pub attributes : Option (Value N)

mutual
  pub data DiffNode (N : Type 0) : Type 0 where
    node : NodeInfo N → Forest N → DiffNode N

  pub data Forest (N : Type 0) : Type 0 where
    nil : Forest N
    cons : DiffNode N → Forest N → Forest N

abbrev pub info : {N : Type 0} → DiffNode N → NodeInfo N
info (node i f) = i

abbrev pub children : {N : Type 0} → DiffNode N → Forest N
children (node i f) = f

abbrev pub to_list : {N : Type 0} → Forest N → List (DiffNode N)
to_list nil = []
to_list (cons x f) = x ∷ to_list f

abbrev pub of_list : {N : Type 0} → List (DiffNode N) → Forest N
of_list [] = nil
of_list (x ∷ xs) = cons x (of_list xs)
