-- ===== src/Check/Flatten.antt =====
-- `flatten` of crates/sniff-css-check/src/rules.rs: the nodes in pre-order with their intervals.
pub mod Numbered
pub mod Subtrees
use sniff_css.Prelude.{
  ℕ, ◌-◌, Bool, ◌&&◌, ◌||◌, Option, none, some, List, [], ◌∷◌, ◌++◌, leb, get_elem?, set,
  saturating_add,
}
use sniff_css.Json.{Serde}
use sniff_css.Model.{DiffNode, node, Forest, nil, cons}
use sniff_css.Check.Nodes.{Rect, rect_coords}

module _ (S : Serde) where
  open S use {Number}

  pub record Flat : Type 0 where
    pub node_of : DiffNode Number
    pub idx : ℕ
    pub end : ℕ
    pub rect : Option (Rect S)

  -- `out` and `next`
  pub record Flattening : Type 0 where
    pub out : List Flat
    pub next : ℕ

  abbrev pub opened : DiffNode Number → Flattening → Flattening
  opened x s = record {
    out = s.out ++ record { node_of = x; idx = s.next; end = s.next; rect = rect_coords S x } ∷ [];
    next = saturating_add s.next 1;
  }

  abbrev pub set_end : List Flat → ℕ → ℕ → Option Flat → List Flat
  set_end out idx e none = out
  set_end out idx e (some f) = set out idx (record f { end = e })

  -- the subtree's interval ends at the last node that was pushed
  abbrev pub closed : ℕ → Flattening → Flattening
  closed idx s = record s { out = set_end s.out idx (s.next - 1) (get_elem? s.out idx) }

  unfoldable mutual
    pub flatten_node : DiffNode Number → Flattening → Flattening
    flatten_node (node i f) s = closed s.next (flatten f (opened (node i f) s))

    pub flatten : Forest Number → Flattening → Flattening
    flatten nil s = s
    flatten (cons x f) s = flatten f (flatten_node x s)

  unfoldable pub flattened : Forest Number → List Flat
  unfolding flatten
  flattened f = (flatten f (record { out = []; next = 0 })).out

  abbrev pub related : Flat → Flat → Bool
  related a b = (leb a.idx b.idx && leb b.idx a.end) || (leb b.idx a.idx && leb a.idx b.end)
