-- ===== src/Check/Flatten/Numbered.antt =====
-- `flatten` numbers the nodes in pre-order, and each interval is that of the node's subtree.
use sniff_css.Prelude.{
  ℕ, suc, ◌+◌, ◌-◌, ◌≤◌, ◌<◌, ◌≡◌, refl, ap, sym, ◌∙◌, List, [], ◌∷◌, ◌++◌, arith, length,
  length-append, usize_max, append_nil, append_assoc, get_elem?-length, set-length,
}
use sniff_css.Json.{Serde}
use sniff_css.Model.{DiffNode, node, Forest, nil, cons}
use sniff_css.Check.Nodes.{rect_coords}
use sniff_css.Check.Flatten.{Flat, Flattening, opened, closed, flatten_node, flatten, flattened}

module _ (S : Serde) where
  open S use {Number}

  -- the number of nodes
  abbrev mutual
    pub size_node : DiffNode Number → ℕ
    size_node (node i f) = suc (size f)

    pub size : Forest Number → ℕ
    size nil = 0
    size (cons x f) = size_node x + size f

  -- The nodes in pre-order, numbered from `n`: each with its own number and the last one of its
  -- subtree.
  abbrev mutual
    pub numbered_node : ℕ → DiffNode Number → List (Flat S)
    numbered_node n (node i f) =
        record { node_of = node i f; idx = n; end = n + size f; rect = rect_coords S (node i f) }
        ∷ numbered (suc n) f

    pub numbered : ℕ → Forest Number → List (Flat S)
    numbered n nil = []
    numbered n (cons x f) = numbered_node n x ++ numbered (n + size_node x) f

  same_state :
      {a b : List (Flat S)} {m k : ℕ}
      → a ≡ b
      → m ≡ k
      → ◌≡◌ {A = Flattening S} (record { out = a; next = m }) (record { out = b; next = k })
  same_state {b = b} {m = m} p q =
      ap (λ l. record { out = l; next = m }) p ∙ ap (λ j. record { out = b; next = j }) q

  -- the first step: the entry is pushed, and the numbers do not saturate
  opened-numbered :
      (x : DiffNode Number) (out : List (Flat S)) (n : ℕ)
      → n < usize_max
      → opened S x (record { out = out; next = n }) ≡ record {
        out = out ++ record { node_of = x; idx = n; end = n; rect = rect_coords S x } ∷ [];
        next = suc n;
      }
  opened-numbered x out n b =
      ap
        (λ m. record {
          out = out ++ record { node_of = x; idx = n; end = n; rect = rect_coords S x } ∷ [];
          next = m;
        })
        (omega arith)

  -- the last step: the entry gets its end
  closed-numbered :
      (out rest : List (Flat S)) (f : Flat S) (n m e k : ℕ)
      → length out ≡ n
      → m - 1 ≡ e
      → m ≡ k
      → closed S n (record { out = (out ++ f ∷ []) ++ rest; next = m })
        ≡ record { out = out ++ record f { end = e } ∷ rest; next = k }
  closed-numbered out rest f n m e k p q r = rw (sym p) (
      rw (sym q) (
        rw (sym r) (
          rw (append_assoc out (f ∷ []) rest) (
            rw (get_elem?-length out f rest) (
              ap (λ l. record { out = l; next = m })
                (set-length out f (record f { end = m - 1 }) rest))))))

  mutual
    pub length-numbered_node :
        (n : ℕ) (x : DiffNode Number) → length (numbered_node n x) ≡ size_node x
    length-numbered_node n (node i f) = ap suc (length-numbered (suc n) f)

    length-numbered : (n : ℕ) (f : Forest Number) → length (numbered n f) ≡ size f
    length-numbered n nil = refl
    length-numbered n (cons x f) = omega (
      arith,
      length-append (numbered_node n x) (numbered (n + size_node x) f),
      length-numbered_node n x,
      length-numbered (n + size_node x) f,
    )

  mutual
    unfolding flatten

    flatten_node-numbered :
        (x : DiffNode Number) (out : List (Flat S)) (n : ℕ)
        → length out ≡ n
        → n + size_node x ≤ usize_max
        → flatten_node S x (record { out = out; next = n })
          ≡ record { out = out ++ numbered_node n x; next = n + size_node x }
    flatten_node-numbered (node i f) out n e b =
        ap (λ s. closed S n (flatten S f s)) (opened-numbered (node i f) out n (omega arith))
        ∙ ap (closed S n) (
            flatten-numbered_from f (out ++ _ ∷ []) (suc n)
              (omega (arith, length-append out (_ ∷ []))) (omega arith))
        ∙ closed-numbered out (numbered (suc n) f) _ n (suc n + size f) (n + size f) _ e
            (omega arith) (omega arith)

    flatten-numbered_from :
        (f : Forest Number) (out : List (Flat S)) (n : ℕ)
        → length out ≡ n
        → n + size f ≤ usize_max
        → flatten S f (record { out = out; next = n })
          ≡ record { out = out ++ numbered n f; next = n + size f }
    flatten-numbered_from nil out n e b = same_state (sym (append_nil out)) (omega arith)
    flatten-numbered_from (cons x f) out n e b =
        ap (flatten S f) (flatten_node-numbered x out n e (omega arith))
        ∙ flatten-numbered_from f (out ++ numbered_node n x) (n + size_node x)
            (omega (arith, length-append out (numbered_node n x), length-numbered_node n x, e))
            (omega arith)
        ∙ same_state (append_assoc out (numbered_node n x) (numbered (n + size_node x) f))
            (omega arith)

  -- With fewer nodes than `usize` has numbers, `flatten` lists the nodes in pre-order: each with its
  -- place in the list, and with the place of the last node of its subtree as its end.
  pub flattened-numbered : (f : Forest Number) → size f ≤ usize_max → flattened S f ≡ numbered 0 f
  unfolding flattened
  flattened-numbered f b = ap (λ s. s.out) (flatten-numbered_from f [] 0 refl (omega arith))
