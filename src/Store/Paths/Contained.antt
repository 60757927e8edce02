-- ===== src/Store/Paths/Contained.antt =====
-- What `SnapshotStore::resolve` of crates/sniff-css-mcp/src/store.rs lets through.
use sniff_css.Prelude.{
  ◌≡◌, refl, ap, ◌∙◌, sym, subst, ◌↔◌, Bool, true, false, ◌||◌, not, [], ◌∷◌, ◌++◌, ltb, length,
  arith, if◌then◌else◌, eq_iff, eq_refl, and_left, and_right, and_true, length-append,
}
use sniff_css.Store.Paths.{
  Component, root_dir, parent_dir, cur_dir, normal, PathBuf, is_absolute, join, component_eq,
  path_eq, starts_with, has_parent_dir, parent_not_allowed, escapes, StoreResult, ok, err,
  ensure_contained, resolve,
}

component_eq_sound : (c d : Component) → component_eq c d ≡ true → c ≡ d
component_eq_sound root_dir root_dir h = refl
component_eq_sound parent_dir parent_dir h = refl
component_eq_sound cur_dir cur_dir h = refl
component_eq_sound (normal s) (normal t) h = ap normal ((eq_iff s t).0 h)
component_eq_sound root_dir parent_dir h = absurd (ground (arith, h))
component_eq_sound root_dir cur_dir h = absurd (ground (arith, h))
component_eq_sound root_dir (normal t) h = absurd (ground (arith, h))
component_eq_sound parent_dir root_dir h = absurd (ground (arith, h))
component_eq_sound parent_dir cur_dir h = absurd (ground (arith, h))
component_eq_sound parent_dir (normal t) h = absurd (ground (arith, h))
component_eq_sound cur_dir root_dir h = absurd (ground (arith, h))
component_eq_sound cur_dir parent_dir h = absurd (ground (arith, h))
component_eq_sound cur_dir (normal t) h = absurd (ground (arith, h))
component_eq_sound (normal s) root_dir h = absurd (ground (arith, h))
component_eq_sound (normal s) parent_dir h = absurd (ground (arith, h))
component_eq_sound (normal s) cur_dir h = absurd (ground (arith, h))

pub component_eq_refl : (c : Component) → component_eq c c ≡ true
component_eq_refl root_dir = refl
component_eq_refl parent_dir = refl
component_eq_refl cur_dir = refl
component_eq_refl (normal s) = eq_refl s

pub path_eq_refl : (p : PathBuf) → path_eq p p ≡ true
path_eq_refl [] = refl
path_eq_refl (c ∷ p) = and_true _ _ (component_eq_refl c) (path_eq_refl p)

-- a path stands below another
abbrev pub Under : PathBuf → PathBuf → Type 0
Under root abs = (rest : PathBuf) × (abs ≡ root ++ rest)

starts_with-Under : (abs root : PathBuf) → starts_with abs root ≡ true → Under root abs
starts_with-Under abs [] h = (abs, refl)
starts_with-Under [] (d ∷ q) h = absurd (ground (arith, h))
starts_with-Under (c ∷ p) (d ∷ q) h =
    let (rest, e) = starts_with-Under p q (and_right _ _ h) in
    (rest, ap (λ x. x ∷ p) (component_eq_sound c d (and_left _ _ h)) ∙ ap (◌∷◌ d) e)

starts_with-append : (root rest : PathBuf) → starts_with (root ++ rest) root ≡ true
starts_with-append [] rest = refl
starts_with-append (c ∷ p) rest = and_true _ _ (component_eq_refl c) (starts_with-append p rest)

target_join :
    (root rel : PathBuf) → (if is_absolute rel then rel else join root rel) ≡ join root rel
target_join root [] = refl
target_join root (root_dir ∷ q) = refl
target_join root (parent_dir ∷ q) = refl
target_join root (cur_dir ∷ q) = refl
target_join root (normal s ∷ q) = refl

checked :
    (a l b : Bool) (abs p : PathBuf)
    → ◌≡◌ {A = StoreResult PathBuf}
        (if a then err parent_not_allowed else if l || not b then err escapes else ok abs)
        (ok p)
    → (p ≡ abs) × (a ≡ false) × (b ≡ true)
checked true l b abs p h = absurd (ground (arith, h))
checked false true b abs p h = absurd (ground (arith, h))
checked false false false abs p h = absurd (ground (arith, h))
checked false false true abs p h = (ground (arith, h), refl, refl)

contained_of :
    (root abs p : PathBuf)
    → ensure_contained root abs ≡ ok p
    → (p ≡ abs) × (has_parent_dir p ≡ false) × Under root p
unfolding ensure_contained
contained_of root abs p h =
    let (e, n, s) =
      checked (has_parent_dir abs) (ltb (length abs) (length root)) (starts_with abs root) abs p
        h in
    (e, ap has_parent_dir e ∙ n, subst (Under root) (sym e) (starts_with-Under abs root s))

pub ensure_contained-intro :
    (root rest : PathBuf)
    → has_parent_dir (root ++ rest) ≡ false
    → ensure_contained root (root ++ rest) ≡ ok (root ++ rest)
unfolding ensure_contained
ensure_contained-intro root rest h =
    ground (arith, h, starts_with-append root rest, length-append root rest)

-- A path is resolved exactly to what joining it to the root gives, provided that this has no `..`
-- and stands below the root. (An absolute path replaces the root when it is joined.)
pub resolve-ok_iff :
    (root rel abs : PathBuf)
    → (resolve root rel ≡ ok abs)
      ↔ ((abs ≡ join root rel) × (has_parent_dir abs ≡ false) × Under root abs)
unfolding resolve
resolve-ok_iff root rel abs = (
  λ h.
      contained_of root (join root rel) abs
        (ap (ensure_contained root) (sym (target_join root rel)) ∙ h),
  λ (e, n, (rest, u)).
      ap (ensure_contained root) (target_join root rel ∙ sym e ∙ u)
      ∙ ensure_contained-intro root rest (ap has_parent_dir (sym u) ∙ n)
      ∙ ap ok (sym u),
)
