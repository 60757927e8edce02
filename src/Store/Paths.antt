-- ===== src/Store/Paths.antt =====
-- Paths of std::path on Unix, and what crates/sniff-css-mcp/src/store.rs does with them. A path is
-- the list of its components, which is what paths are compared by.
pub mod Contained
use Prim.Native.Char.{Char, code}
use sniff_css.Prelude.{
  ◌≡◌, refl, ap, String, Bool, true, false, ◌&&◌, ◌||◌, not, Option, none, some, List, [], ◌∷◌,
  ◌++◌, ltb, ◌==◌, if◌then◌else◌, str_eq, eq_iff, eq_refl, is_empty_str, length, and_left,
  and_right,
}
use sniff_css.Contrast.Strings.{split}

pub data Component : Type 0 where
  root_dir parent_dir cur_dir : Component
  normal : String → Component

abbrev pub PathBuf : Type 0
PathBuf = List Component

-- one piece between two slashes
abbrev pub of_piece : String → PathBuf
of_piece s =
    if is_empty_str s || str_eq s "."
    then []
    else if str_eq s ".."
    then parent_dir ∷ []
    else normal s ∷ []

abbrev pub of_pieces : List String → PathBuf
of_pieces [] = []
of_pieces (s ∷ ss) = of_piece s ++ of_pieces ss

-- a `.` counts in front of a relative path only
abbrev pub with_first : List String → PathBuf
with_first [] = []
with_first (s ∷ ss) = if str_eq s "." then cur_dir ∷ of_pieces ss else of_pieces (s ∷ ss)

abbrev pub is_slash : Char → Bool
is_slash c = code c == b'/'

-- `PathBuf::from(s)`, by its `components`
unfoldable pub components : String → PathBuf
unfolding split
components String.[] = []
components (String.◌∷◌ c s) =
    if is_slash c
    then root_dir ∷ of_pieces (split is_slash s)
    else with_first (split is_slash (String.◌∷◌ c s))

abbrev pub is_absolute : PathBuf → Bool
is_absolute (root_dir ∷ p) = true
is_absolute p = false

-- `p.join(q)`
abbrev pub join : PathBuf → PathBuf → PathBuf
join p (root_dir ∷ q) = root_dir ∷ q
join [] q = q
join (c ∷ p) (cur_dir ∷ q) = c ∷ p ++ q
join (c ∷ p) q = c ∷ p ++ q

abbrev pub component_eq : Component → Component → Bool
component_eq root_dir root_dir = true
component_eq parent_dir parent_dir = true
component_eq cur_dir cur_dir = true
component_eq (normal s) (normal t) = str_eq s t
component_eq _ _ = false

abbrev pub path_eq : PathBuf → PathBuf → Bool
path_eq [] [] = true
path_eq (c ∷ p) (d ∷ q) = component_eq c d && path_eq p q
path_eq _ _ = false

-- `abs_components.starts_with(&root_components)`
abbrev pub starts_with : PathBuf → PathBuf → Bool
starts_with p [] = true
starts_with [] (d ∷ q) = false
starts_with (c ∷ p) (d ∷ q) = component_eq c d && starts_with p q

abbrev pub is_parent_dir : Component → Bool
is_parent_dir parent_dir = true
is_parent_dir _ = false

abbrev pub has_parent_dir : PathBuf → Bool
has_parent_dir [] = false
has_parent_dir (c ∷ p) = is_parent_dir c || has_parent_dir p

pub data StoreError : Type 0 where
  parent_not_allowed escapes no_parent : StoreError
  io_error : StoreError

pub data StoreResult {ℓ} (A : Type ℓ) : Type ℓ where
  ok : A → StoreResult A
  err : StoreError → StoreResult A

unfoldable pub ensure_contained : PathBuf → PathBuf → StoreResult PathBuf
ensure_contained root abs =
    if has_parent_dir abs
    then err parent_not_allowed
    else if ltb (length abs) (length root) || not (starts_with abs root)
    then err escapes
    else ok abs

-- `SnapshotStore::resolve`
unfoldable pub resolve : PathBuf → PathBuf → StoreResult PathBuf
unfolding ensure_contained
resolve root rel = ensure_contained root (if is_absolute rel then rel else join root rel)

-- `abs.parent()`
abbrev pub parent : PathBuf → Option PathBuf
parent [] = none
parent (root_dir ∷ []) = none
parent (c ∷ []) = some []
parent (c ∷ d ∷ p) = elim (parent (d ∷ p)) [ none ↦ some (c ∷ []) | some q ↦ some (c ∷ q) ]
