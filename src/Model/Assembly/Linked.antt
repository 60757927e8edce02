-- ===== src/Model/Assembly/Linked.antt =====
-- Every flat entry is linked exactly once: below its parent, or as a root.
use sniff_css.Prelude.{
  ℕ, zero, suc, ◌+◌, ◌≡◌, refl, Option, none, some, List, [], ◌∷◌, ◌++◌, arith, get_elem?, set,
  length, replicate, Option-cases, inl, inr,
}
use sniff_css.Model.Assembly.{FlatEntry, by_id, Links, link_at, link, link_from, link_all}

-- the sum of `f` over a list of indices, and over a list of such lists
abbrev pub sum_over : (ℕ → ℕ) → List ℕ → ℕ
sum_over f [] = 0
sum_over f (i ∷ is) = f i + sum_over f is

abbrev pub sum_over_all : (ℕ → ℕ) → List (List ℕ) → ℕ
sum_over_all f [] = 0
sum_over_all f (is ∷ iss) = sum_over f is + sum_over_all f iss

pub sum_over-append :
    (f : ℕ → ℕ) (xs ys : List ℕ) → sum_over f (xs ++ ys) ≡ sum_over f xs + sum_over f ys
sum_over-append f [] ys = omega arith
sum_over-append f (x ∷ xs) ys = omega (arith, sum_over-append f xs ys)

sum_over_all-set :
    (f : ℕ → ℕ) (xss : List (List ℕ)) (j i : ℕ) {slot : List ℕ}
    → get_elem? xss j ≡ some slot
    → sum_over_all f (set xss j (slot ++ (i ∷ []))) ≡ sum_over_all f xss + f i
sum_over_all-set f [] j i h = cc
sum_over_all-set f (xs ∷ xss) zero i {slot} h = ground (arith, sum_over-append f slot (i ∷ []))
sum_over_all-set f (xs ∷ xss) (suc j) i h = omega (arith, sum_over_all-set f xss j i h)

sum_over_all-replicate : (f : ℕ → ℕ) (n : ℕ) → sum_over_all f (replicate n []) ≡ 0
sum_over_all-replicate f zero = refl
sum_over_all-replicate f (suc n) = omega (arith, sum_over_all-replicate f n)

-- all that is linked, roots and children together
abbrev pub linked : (ℕ → ℕ) → Links → ℕ
linked f l = sum_over f l.roots + sum_over_all f l.children

link_at-linked :
    (f : ℕ → ℕ) (i : ℕ) (l : Links) (o : Option ℕ) → linked f (link_at i l o) ≡ linked f l + f i
link_at-linked f i l none = omega (arith, sum_over-append f l.roots (i ∷ []))
link_at-linked f i l (some pi) = elim (Option-cases (get_elem? l.children pi)) [
  | inl e ↦ rw e (omega (arith, sum_over-append f l.roots (i ∷ [])))
  | inr (slot, e) ↦ rw e (omega (arith, sum_over_all-set f l.children pi i e))
]

module _ {N : Type 0} (f : ℕ → ℕ) where
  link-linked :
      (flat : List (FlatEntry N)) (i : ℕ) (p : Option ℕ) (l : Links)
      → linked f (link flat i p l) ≡ linked f l + f i
  unfolding link
  link-linked flat i none l = omega (arith, sum_over-append f l.roots (i ∷ []))
  link-linked flat i (some p) l = link_at-linked f i l (by_id p flat 0)

  -- the sum over the indices from `i` on, one for each entry
  abbrev pub sum_from : ℕ → List (FlatEntry N) → ℕ
  sum_from i [] = 0
  sum_from i (e ∷ es) = f i + sum_from (suc i) es

  link_from-linked :
      (flat es : List (FlatEntry N)) (i : ℕ) (l : Links)
      → linked f (link_from flat es i l) ≡ linked f l + sum_from i es
  unfolding link_from
  link_from-linked flat [] i l = omega arith
  link_from-linked flat (e ∷ es) i l = omega (
    arith,
    link_from-linked flat es (suc i) (link flat i e.parent l),
    link-linked flat i e.parent l,
  )

  -- Each entry is linked exactly once, as a root or as a child of one entry: over all that is
  -- linked, any function of the index has the sum that it has over the entries.
  pub link_all-linked : (flat : List (FlatEntry N)) → linked f (link_all flat) ≡ sum_from 0 flat
  unfolding link_all
  link_all-linked flat = omega (
    arith,
    link_from-linked flat flat 0 (record { children = replicate (length flat) []; roots = [] }),
    sum_over_all-replicate f (length flat),
  )
