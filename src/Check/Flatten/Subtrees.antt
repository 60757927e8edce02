-- ===== src/Check/Flatten/Subtrees.antt =====
-- The interval of an entry holds exactly its subtree.
use sniff_css.Prelude.{
  ℕ, zero, suc, ◌+◌, ◌≤◌, ◌≡◌, refl, ap, sym, ◌∙◌, subst, ◌⊎◌, inl, inr, some, List, [], ◌∷◌, ◌++◌,
  arith, get_elem?, length, usize_max, append_nil, append_assoc,
}
use mathlib.Core.Option.{some-injective}
use sniff_css.Json.{Serde}
use sniff_css.Model.{DiffNode, node, Forest, nil, cons, children}
use sniff_css.Check.Flatten.{Flat, flattened}
use sniff_css.Check.Flatten.Numbered.{
  size, size_node, numbered, numbered_node, length-numbered_node, flattened-numbered,
}

module _ {A : Type 0} where
  abbrev pub drop : ℕ → List A → List A
  drop zero xs = xs
  drop (suc n) [] = []
  drop (suc n) (x ∷ xs) = drop n xs

  -- a place in `xs ++ ys` is one in `xs` or one in `ys`
  append-split :
      (xs ys : List A) (i : ℕ)
      → ((get_elem? (xs ++ ys) i ≡ get_elem? xs i)
          × (drop (suc i) (xs ++ ys) ≡ drop (suc i) xs ++ ys))
        ⊎ ((j : ℕ) × (i ≡ length xs + j)
            × (get_elem? (xs ++ ys) i ≡ get_elem? ys j)
            × (drop (suc i) (xs ++ ys) ≡ drop (suc j) ys))
  append-split [] ys i = inr (i, omega arith, refl, refl)
  append-split (x ∷ xs) ys zero = inl (refl, refl)
  append-split (x ∷ xs) ys (suc i) = elim (append-split xs ys i) [
    | inl p ↦ inl p
    | inr (j, e, p, q) ↦ inr (j, omega (arith, e), p, q)
  ]

module _ (S : Serde) where
  open S use {Number}

  -- The entry at place `i` of a list has the index `k`, its end is the last place of its subtree,
  -- and what follows it in the list is its subtree in pre-order, and then the rest.
  abbrev pub SubtreeAt : List (Flat S) → ℕ → ℕ → Flat S → Type 0
  SubtreeAt flat i k e =
      (e.idx ≡ k)
      × (e.end ≡ k + size S (children e.node_of))
      × (rest : List (Flat S)) × (drop (suc i) flat
          ≡ numbered S (suc k) (children e.node_of) ++ rest)

  mutual
    numbered_node-SubtreeAt :
        (x : DiffNode Number) (n i k : ℕ) (e : Flat S)
        → n + i ≡ k
        → get_elem? (numbered_node S n x) i ≡ some e
        → SubtreeAt (numbered_node S n x) i k e
    numbered_node-SubtreeAt (node info f) n zero k e p h =
        subst (SubtreeAt (numbered_node S n (node info f)) 0 k) (some-injective _ _ h) (
          omega arith,
          omega arith,
          [],
          ap (λ m. numbered S (suc m) f) (omega arith) ∙ sym (append_nil (numbered S (suc k) f)),
        )
    numbered_node-SubtreeAt (node info f) n (suc i) k e p h =
        numbered-SubtreeAt f (suc n) i k e (omega arith) h

    numbered-SubtreeAt :
        (f : Forest Number) (n i k : ℕ) (e : Flat S)
        → n + i ≡ k
        → get_elem? (numbered S n f) i ≡ some e
        → SubtreeAt (numbered S n f) i k e
    numbered-SubtreeAt nil n i k e p h = absurd (ground (arith, h))
    numbered-SubtreeAt (cons x f) n i k e p h =
        elim (append-split (numbered_node S n x) (numbered S (n + size_node S x) f) i) [
          | inl (g, d) ↦
              let (a, b, rest, q) = numbered_node-SubtreeAt x n i k e p (sym g ∙ h) in
              (
                a,
                b,
                rest ++ numbered S (n + size_node S x) f,
                d
                    ∙ ap (λ l. l ++ numbered S (n + size_node S x) f) q
                    ∙ append_assoc (numbered S (suc k) (children e.node_of)) rest
                        (numbered S (n + size_node S x) f),
              )
          | inr (j, le, g, d) ↦
              let (a, b, rest, q) =
                numbered-SubtreeAt f (n + size_node S x) j k e
                  (omega (arith, length-numbered_node S n x, le)) (sym g ∙ h) in
              (a, b, rest, d ∙ q)
        ]

  -- With fewer nodes than `usize` has numbers, the list of `flatten` keeps the tree: the entry at place `i` has the index `i`, the entries after
  -- it up to its end are the nodes of its subtree in pre-order.
  pub flattened-SubtreeAt :
      (f : Forest Number) (i : ℕ) (e : Flat S)
      → size S f ≤ usize_max
      → get_elem? (flattened S f) i ≡ some e
      → SubtreeAt (flattened S f) i i e
  flattened-SubtreeAt f i e b h =
      subst (λ l. SubtreeAt l i i e) (sym (flattened-numbered S f b))
        (numbered-SubtreeAt f 0 i i e (omega arith)
          (ap (λ l. get_elem? l i) (sym (flattened-numbered S f b)) ∙ h))
