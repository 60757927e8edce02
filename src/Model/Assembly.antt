-- ===== src/Model/Assembly.antt =====
-- `build_forest` of crates/sniff-css-diff/src/model.rs: the forest from the flat layout.
pub mod Linked
use sniff_css.Prelude.{
  ℕ, zero, suc, Option, none, some, List, [], ◌∷◌, ◌++◌, ◌==◌, leb, if◌then◌else◌, get_elem?, set,
  length, replicate,
}
use sniff_css.Model.Node.{DiffNode, node, Forest, nil, cons, info}

pub record FlatEntry (N : Type 0) : Type 0 where
  pub id : ℕ
  pub parent : Option ℕ
  pub node_of : DiffNode N

-- `by_id`: the index, counted from `i`, of the last entry with an id
unfoldable pub by_id : {N : Type 0} → ℕ → List (FlatEntry N) → ℕ → Option ℕ
by_id p [] i = none
by_id p (e ∷ es) i = elim (by_id p es (suc i)) [
  | some j ↦ some j
  | none ↦ if e.id == p then some i else none
]

-- the two vectors that the loop fills
pub record Links : Type 0 where
  pub children : List (List ℕ)
  pub roots : List ℕ

abbrev pub push_root : ℕ → Links → Links
push_root i l = record l { roots = l.roots ++ i ∷ [] }

-- `match children.get_mut(pi)`
abbrev push_child : ℕ → ℕ → Links → Option (List ℕ) → Links
push_child i pi l none = push_root i l
push_child i pi l (some slot) = record l { children = set l.children pi (slot ++ i ∷ []) }

abbrev link_at : ℕ → Links → Option ℕ → Links
link_at i l none = push_root i l
link_at i l (some pi) = push_child i pi l (get_elem? l.children pi)

-- one round of the loop over the entries: entry `i` goes to its parent, or to the roots
unfoldable pub link : {N : Type 0} → List (FlatEntry N) → ℕ → Option ℕ → Links → Links
unfolding by_id
link flat i none l = push_root i l
link flat i (some p) l = link_at i l (by_id p flat 0)

unfoldable pub link_from :
    {N : Type 0} → List (FlatEntry N) → List (FlatEntry N) → ℕ → Links → Links
unfolding link
link_from flat [] i l = l
link_from flat (e ∷ es) i l = link_from flat es (suc i) (link flat i e.parent l)

unfoldable pub link_all : {N : Type 0} → List (FlatEntry N) → Links
unfolding link_from
link_all flat = link_from flat flat 0 (record { children = replicate (length flat) []; roots = [] })

insert_index : ℕ → List ℕ → List ℕ
insert_index x [] = x ∷ []
insert_index x (y ∷ ys) = if leb x y then x ∷ y ∷ ys else y ∷ insert_index x ys

-- `roots.sort_unstable()`
unfoldable pub sort_indices : List ℕ → List ℕ
unfolding insert_index
sort_indices [] = []
sort_indices (x ∷ xs) = insert_index x (sort_indices xs)

-- `ids.iter().filter_map(build).collect()`
unfoldable pub build_all : {N : Type 0} → (ℕ → Option (DiffNode N)) → List ℕ → Forest N
build_all f [] = nil
build_all f (i ∷ is) =
    let rest = build_all f is in elim (f i) [ none ↦ rest | some n ↦ cons n rest ]

abbrev pub ids_at : List (List ℕ) → ℕ → List ℕ
ids_at children i = elim (get_elem? children i) [ none ↦ [] | some ids ↦ ids ]

-- The recursion follows the children; one unit of fuel for each entry is enough, since no entry is
-- its own descendant below a root.
unfoldable pub build :
    {N : Type 0} → ℕ → List (FlatEntry N) → List (List ℕ) → ℕ → Option (DiffNode N)
unfolding build_all
build zero flat children i = none
build (suc n) flat children i = elim (get_elem? flat i) [
  | none ↦ none
  | some e ↦ some (node (info e.node_of) (build_all (build n flat children) (ids_at children i)))
]

unfoldable pub build_forest : {N : Type 0} → List (FlatEntry N) → Forest N
unfolding link_all sort_indices build
build_forest [] = nil
build_forest (e ∷ es) =
    let flat = e ∷ es in
    let l = link_all flat in build_all (build (length flat) flat l.children) (sort_indices l.roots)
