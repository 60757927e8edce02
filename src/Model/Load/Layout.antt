-- ===== src/Model/Load/Layout.antt =====
-- The layout of a document: what `load_str` keeps of its lines.
use sniff_css.Prelude.{
  ℕ, ◌+◌, String, ◌≡◌, refl, ◌∙◌, Bool, true, false, ◌||◌, Option, none, some, List, [], ◌∷◌, arith,
  if◌then◌else◌, is_some, is_empty_str, trim, length, length-append, Bool-cases, inl, inr, subst,
}
use sniff_css.Json.{Value, Map, Serde}
use sniff_css.Model.Node.{DiffNode}
use sniff_css.Model.Load.{
  DiffResult, ok, err, ◌>>=◌, at, Loading, nothing_loaded, with_defaults, add_node, check_mode,
  from_value, load_value, load_parsed, load_line, load_lines,
}

module _ (S : Serde) where
  open S use {Number, from_str}

  -- how many nodes a value, a line and a document have
  abbrev pub nodes_of_value : Value Number → ℕ
  nodes_of_value v =
      if is_some (at S v "__meta") || (is_some (at S v "__ax_tree") || is_some (at S v "__actions"))
      then 0
      else 1

  abbrev pub nodes_of_parsed : Option (Value Number) → ℕ
  nodes_of_parsed none = 0
  nodes_of_parsed (some v) = nodes_of_value v

  abbrev pub nodes_of_line : String → ℕ
  nodes_of_line line =
      if is_empty_str (trim line) then 0 else nodes_of_parsed (from_str (trim line))

  abbrev pub nodes_of_lines : List String → ℕ
  nodes_of_lines [] = 0
  nodes_of_lines (l ∷ ls) = nodes_of_line l + nodes_of_lines ls

  -- the number of nodes that the end of `load_str` reads in a mode, and of those that it leaves out
  abbrev pub kept : Option Bool → Loading S → ℕ
  kept (some false) s = length s.flat
  kept _ s = length s.roots

  abbrev left_out : Option Bool → Loading S → ℕ
  left_out none s = length s.roots + length s.flat
  left_out (some true) s = length s.flat
  left_out (some false) s = length s.roots

  abbrev Keeps : ℕ → DiffResult (Loading S) → Type 0
  Keeps n (ok s) = (kept s.mode s ≡ n) × (left_out s.mode s ≡ 0)
  Keeps n (err e) = n ≡ n

  add_node-Keeps :
      (m : Option Bool) (tree : Bool) (x : DiffNode Number) (s : Loading S) (n : ℕ)
      → s.mode ≡ m
      → kept m s ≡ n
      → left_out m s ≡ 0
      → Keeps (n + 1) (check_mode S m tree s >>= λ s'. ok (add_node S tree x s'))
  add_node-Keeps none true x s n e k l =
      (omega (arith, length-append s.roots (x ∷ [])), omega arith)
  add_node-Keeps none false x s n e k l =
      (omega (arith, length-append s.flat (_ ∷ [])), omega arith)
  add_node-Keeps (some true) true x s n e k l =
      rw e (omega (arith, length-append s.roots (x ∷ [])), omega arith)
  add_node-Keeps (some false) false x s n e k l =
      rw e (omega (arith, length-append s.flat (_ ∷ [])), omega arith)
  add_node-Keeps (some true) false x s n e k l = refl
  add_node-Keeps (some false) true x s n e k l = refl

  defaults-kept :
      (m : Option Bool) (s : Loading S) (d : Map Number)
      → (kept m (record s { style_defaults = d }) ≡ kept m s)
        × (left_out m (record s { style_defaults = d }) ≡ left_out m s)
  defaults-kept none s d = (refl, refl)
  defaults-kept (some true) s d = (refl, refl)
  defaults-kept (some false) s d = (refl, refl)

  with_defaults-Keeps :
      (o : Option (Map Number)) (s : Loading S) (n : ℕ)
      → Keeps n (ok s)
      → Keeps n (ok (with_defaults S s o))
  with_defaults-Keeps none s n k = k
  with_defaults-Keeps (some d) s n (k, l) =
      ((defaults-kept s.mode s d).0 ∙ k, (defaults-kept s.mode s d).1 ∙ l)

  Keeps-at : {m n : ℕ} (r : DiffResult (Loading S)) → m ≡ n → Keeps m r → Keeps n r
  Keeps-at r e k = subst (λ i. Keeps i r) e k

  -- the ladder of `load_value`
  ladder-Keeps :
      (a b : Bool) (x y z : DiffResult (Loading S)) (n : ℕ)
      → Keeps n x
      → Keeps n y
      → Keeps (n + 1) z
      → Keeps (n + (if a || b then 0 else 1)) (if a then x else if b then y else z)
  ladder-Keeps true b x y z n kx ky kz = Keeps-at x (omega arith) kx
  ladder-Keeps false true x y z n kx ky kz = Keeps-at y (omega arith) ky
  ladder-Keeps false false x y z n kx ky kz = kz

  load_value-Keeps :
      (v : Value Number) (s : Loading S) (n : ℕ)
      → Keeps n (ok s)
      → Keeps (n + nodes_of_value v) (load_value S v s)
  unfolding load_value
  load_value-Keeps v s n (k, l) =
      ladder-Keeps (is_some (at S v "__meta"))
        (is_some (at S v "__ax_tree") || is_some (at S v "__actions")) _ (ok s) _ n
        (with_defaults-Keeps _ s n (k, l)) (k, l)
        (add_node-Keeps s.mode (is_some (at S v "children")) (from_value S v) s n refl k l)

  load_parsed-Keeps :
      (o : Option (Value Number)) (s : Loading S) (n : ℕ)
      → Keeps n (ok s)
      → Keeps (n + nodes_of_parsed o) (load_parsed S o s)
  load_parsed-Keeps none s n k = refl
  load_parsed-Keeps (some v) s n k = load_value-Keeps v s n k

  load_line-Keeps :
      (line : String) (s : Loading S) (n : ℕ)
      → Keeps n (ok s)
      → Keeps (n + nodes_of_line line) (load_line S line s)
  unfolding load_line
  load_line-Keeps line s n k = elim (Bool-cases (is_empty_str (trim line))) [
    | inl e ↦ rw e (Keeps-at (ok s) (omega arith) k)
    | inr e ↦ rw e (load_parsed-Keeps (from_str (trim line)) s n k)
  ]

  then-Keeps :
      (c : ℕ) (f : Loading S → DiffResult (Loading S)) (r : DiffResult (Loading S)) (n : ℕ)
      → ((s : Loading S) → Keeps n (ok s) → Keeps (n + c) (f s))
      → Keeps n r
      → Keeps (n + c) (r >>= f)
  then-Keeps c f (ok s) n h k = h s k
  then-Keeps c f (err e) n h k = refl

  load_lines-Keeps :
      (ls : List String) (s : Loading S) (n : ℕ)
      → Keeps n (ok s)
      → Keeps (n + nodes_of_lines ls) (load_lines S ls s)
  unfolding load_lines
  load_lines-Keeps [] s n k = Keeps-at (ok s) (omega arith) k
  load_lines-Keeps (l ∷ ls) s n k = Keeps-at (load_line S l s >>= load_lines S ls) (omega arith) (
      then-Keeps (nodes_of_lines ls) (load_lines S ls) (load_line S l s) (n + nodes_of_line l)
        (λ s' k'. load_lines-Keeps ls s' (n + nodes_of_line l) k') (load_line-Keeps l s n k))

  -- When the lines of a document load, the list that the end of the load reads, the flat entries in
  -- the flat layout and the roots otherwise, has as many nodes as there are lines with a node: no
  -- line is dropped, and no line of the other layout was let in.
  pub load_lines-kept :
      (ls : List String) {s : Loading S}
      → load_lines S ls (nothing_loaded S) ≡ ok s
      → kept s.mode s ≡ nodes_of_lines ls
  load_lines-kept ls h =
      (subst (Keeps (nodes_of_lines ls)) h (
        Keeps-at (load_lines S ls (nothing_loaded S)) (omega arith)
          (load_lines-Keeps ls (nothing_loaded S) 0 (refl, refl)))).0
