-- ===== src/Diff/Actions/Laws.antt =====
-- What `diff_actions` reports.
use sniff_css.Prelude.{
  ℕ, zero, suc, ◌+◌, ◌-◌, ◌≤◌, ◌<◌, min, max, String, ◌≡◌, refl, Option, none, some, List, [], ◌∷◌,
  arith, get_elem?, length, Option-cases, Bool-cases, inl, inr, str_eq, if◌then◌else◌, usize_max,
}
use sniff_css.Json.{
  Value, number, array, object, Map, empty, keys, items_to_list, is_empty, Serde, EqLaws,
}
use sniff_css.Json.Collect.{union_keys}
use sniff_css.Diff.Options.{DiffOptions, DeltaLine}
use sniff_css.Diff.Walk.{Delta}
use sniff_css.Diff.Walk.Tallies.{count_status, count_status-snoc}
use sniff_css.Diff.Actions.Compare.{
  compare_at, compare_keys, compare_indices, join_key, index_key, compare_action_fuel,
  compare_action_value,
}
use sniff_css.Diff.Actions.Expand.{expand_action_values}
use sniff_css.Diff.Actions.{push_action, diff_action, diff_actions_from, diff_actions}

get_elem?-none : {A : Type 0} (xs : List A) (i : ℕ) → get_elem? xs i ≡ none → length xs ≤ i
get_elem?-none [] i h = omega arith
get_elem?-none (x ∷ xs) zero h = cc
get_elem?-none (x ∷ xs) (suc i) h = omega (arith, get_elem?-none xs i h)

get_elem?-some :
    {A : Type 0} (xs : List A) (i : ℕ) {v : A} → get_elem? xs i ≡ some v → i < length xs
get_elem?-some [] i h = cc
get_elem?-some (x ∷ xs) zero h = omega arith
get_elem?-some (x ∷ xs) (suc i) h = omega (arith, get_elem?-some xs i h)

module _ (S : Serde) where
  open S use {Number, F64, get}

  module _ (E : EqLaws S) where
    abbrev Silent : (Value Number → Value Number → String → Map Number → Map Number) → Type 0
    Silent f = (v : Value Number) (key : String) (c : Map Number) → f v v key c ≡ c

    compare_at_self :
        (f : Value Number → Value Number → String → Map Number → Map Number)
        (o : Option (Value Number)) (key : String) (c : Map Number)
        → Silent f
        → compare_at S f o o key c ≡ c
    compare_at_self f none key c s = refl
    compare_at_self f (some v) key c s = s v key c

    compare_keys_self :
        (f : Value Number → Value Number → String → Map Number → Map Number) (m : Map Number)
        (prefix : String) (ks : List String) (c : Map Number)
        → Silent f
        → compare_keys S f m m prefix ks c ≡ c
    unfolding compare_keys
    compare_keys_self f m prefix [] c s = refl
    compare_keys_self f m prefix (k ∷ ks) c s =
        rw (compare_at_self f (get m k) (join_key S prefix k) c s)
          (compare_keys_self f m prefix ks c s)

    compare_indices_self :
        (f : Value Number → Value Number → String → Map Number → Map Number)
        (xs : List (Value Number)) (prefix : String) (n i : ℕ) (c : Map Number)
        → Silent f
        → compare_indices S f xs xs prefix n i c ≡ c
    unfolding compare_indices
    compare_indices_self f xs prefix zero i c s = refl
    compare_indices_self f xs prefix (suc n) i c s =
        rw (compare_at_self f (get_elem? xs i) (index_key S prefix i) c s)
          (compare_indices_self f xs prefix n (suc i) c s)

    compare_action_fuel_self :
        (n : ℕ) (tol : F64) (v : Value Number) (prefix : String) (c : Map Number)
        → compare_action_fuel S n tol v v prefix c ≡ c
    unfolding compare_action_fuel
    compare_action_fuel_self zero tol v prefix c = refl
    compare_action_fuel_self (suc n) tol (object m) prefix c =
        compare_keys_self (compare_action_fuel S n tol) m prefix (union_keys (keys m) (keys m)) c
          (compare_action_fuel_self n tol)
    compare_action_fuel_self (suc n) tol (array xs) prefix c =
        compare_indices_self (compare_action_fuel S n tol) (items_to_list xs) prefix
          (max (length (items_to_list xs)) (length (items_to_list xs))) 0 c
          (compare_action_fuel_self n tol)
    compare_action_fuel_self (suc n) tol (number a) prefix c = rw (E.number_refl a)
    compare_action_fuel_self (suc n) tol v prefix c = ground (arith, E.eq_refl v)

    diff_action_self :
        (tol : F64) (i : ℕ) (o : Option (Value Number)) (d : Delta Number)
        → diff_action S tol i o o d ≡ d
    unfolding diff_action compare_action_value
    diff_action_self tol i none d = refl
    diff_action_self tol i (some v) d =
        rw (compare_action_fuel_self _ tol (expand_action_values S v) "" empty)

    diff_actions_from_self :
        (tol : F64) (xs : List (Value Number)) (n i : ℕ) (d : Delta Number)
        → diff_actions_from S tol xs xs n i d ≡ d
    unfolding diff_actions_from
    diff_actions_from_self tol xs zero i d = refl
    diff_actions_from_self tol xs (suc n) i d =
        rw (diff_action_self tol i (get_elem? xs i) d) (diff_actions_from_self tol xs n (suc i) d)

    -- Effects compared with themselves add no line and no count, whatever the tolerance.
    pub diff_actions_self :
        (xs : List (Value Number)) (opts : DiffOptions S) (d : Delta Number)
        → diff_actions S xs xs opts d ≡ d
    unfolding diff_actions
    diff_actions_self xs opts d =
        diff_actions_from_self opts.tolerance xs (max (length xs) (length xs)) 0 d

  -- the lines that `diff_actions` writes of each kind, and their counter
  pub record ActionTally (d : Delta Number) (added removed : ℕ) : Type 0 where
    pub added_lines : count_status "ACTION_ADDED" d.out ≡ added
    pub removed_lines : count_status "ACTION_REMOVED" d.out ≡ removed
    pub counted :
        d.stats.actions_changed
        ≡ min (added + removed + count_status "ACTION_CHANGED" d.out) usize_max

  -- what one round adds to the first two numbers
  abbrev only : Option (Value Number) → Option (Value Number) → ℕ
  only (some v) o = 0
  only none none = 0
  only none (some v) = 1

  push_action-tally :
      (l : DeltaLine Number) (d : Delta Number) (p q a r k : ℕ)
      → ActionTally d p q
      → (if str_eq l.status "ACTION_ADDED" then 1 else 0) ≡ a
      → (if str_eq l.status "ACTION_REMOVED" then 1 else 0) ≡ r
      → (if str_eq l.status "ACTION_CHANGED" then 1 else 0) ≡ k
      → a + r + k ≡ 1
      → ActionTally (push_action S l d) (p + a) (q + r)
  push_action-tally l d p q a r k t ha hr hk one = omega (
    arith,
    count_status-snoc "ACTION_ADDED" d.out l,
    count_status-snoc "ACTION_REMOVED" d.out l,
    count_status-snoc "ACTION_CHANGED" d.out l,
  )

  diff_action-tally :
      (tol : F64) (i : ℕ) (b h : Option (Value Number)) (d : Delta Number) (p q : ℕ)
      → ActionTally d p q
      → ActionTally (diff_action S tol i b h d) (p + only b h) (q + only h b)
  unfolding diff_action
  diff_action-tally tol i (some b) (some h) d p q t =
      let changes =
        compare_action_value S (expand_action_values S b) (expand_action_values S h) tol "" empty in
      elim (Bool-cases (is_empty changes)) [
        | inl e ↦ rw e (omega arith)
        | inr e ↦ rw e (push_action-tally _ d p q 0 0 1 t refl refl refl refl)
      ]
  diff_action-tally tol i (some b) none d p q t =
      push_action-tally _ d p q 0 1 0 t refl refl refl refl
  diff_action-tally tol i none (some h) d p q t =
      push_action-tally _ d p q 1 0 0 t refl refl refl refl
  diff_action-tally tol i none none d p q t = omega arith

  only-length :
      (xs ys : List (Value Number)) (i : ℕ)
      → only (get_elem? xs i) (get_elem? ys i) + (length ys - max (suc i) (length xs))
        ≡ length ys - max i (length xs)
  only-length xs ys i = elim (Option-cases (get_elem? xs i)) [
    | inl e ↦ elim (Option-cases (get_elem? ys i)) [
      | inl f ↦ rw (e, f) (omega (arith, get_elem?-none xs i e, get_elem?-none ys i f))
      | inr (y, f) ↦ rw (e, f) (omega (arith, get_elem?-none xs i e, get_elem?-some ys i f))
    ]
    | inr (x, e) ↦ rw e (omega (arith, get_elem?-some xs i e))
  ]

  diff_actions_from-tally :
      (tol : F64) (base head : List (Value Number)) (n i : ℕ) (d : Delta Number) (p q : ℕ)
      → i + n ≡ max (length base) (length head)
      → ActionTally d p q
      → ActionTally
          (diff_actions_from S tol base head n i d)
          (p + (length head - max i (length base)))
          (q + (length base - max i (length head)))
  unfolding diff_actions_from
  diff_actions_from-tally tol base head zero i d p q e t = omega arith
  diff_actions_from-tally tol base head (suc n) i d p q e t = omega (
    arith,
    diff_actions_from-tally tol base head n (suc i) _ _ _ (omega arith)
        (diff_action-tally tol i (get_elem? base i) (get_elem? head i) d p q t),
    only-length base head i,
    only-length head base i,
  )

  -- `diff_actions` reports as many added and removed actions as one snapshot has more than the
  -- other, and counts each line that it writes, up to the largest `usize`.
  pub diff_actions-tally :
      (base head : List (Value Number)) (opts : DiffOptions S) (d : Delta Number)
      → ActionTally d 0 0
      → ActionTally
          (diff_actions S base head opts d)
          (length head - length base)
          (length base - length head)
  unfolding diff_actions
  diff_actions-tally base head opts d t = omega (
    arith,
    diff_actions_from-tally opts.tolerance base head (max (length base) (length head)) 0 d 0 0
        (omega arith) t,
  )
