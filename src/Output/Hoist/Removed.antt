-- ===== src/Output/Hoist/Removed.antt =====
-- What `dedup_styles` leaves of a node's styles, and what `category_defaults` holds.
use sniff_css.Prelude.{
  String, ◌≡◌, refl, ap, ◌∙◌, subst, sym, true, false, Option, none, some, arith, if◌then◌else◌,
  str_eq, eq_iff, eq_refl, contains, Bool-cases, ◌⊎◌, inl, inr,
}
use sniff_css.Json.{
  Value, null, bool, number, string, array, object, Map, empty, entry, as_object, keys, find_entry,
  Serde, MapLaws, EntryLaws, IsUnique, option_eq,
}
use sniff_css.Output.Hoist.{object_at, drop_props, drop_category, dedup_styles}

find_entry-absent :
    {N : Type 0} (m : Map N) (k : String) → contains (keys m) k ≡ false → find_entry m k ≡ none
find_entry-absent empty k h = refl
find_entry-absent (entry j v m) k h = ground (arith, find_entry-absent m k, h)

module _ (S : Serde) (L : MapLaws S) (E : EntryLaws S) where
  open S use {Number, get, insert, remove}

  -- a property stays, or goes if the defaults have it
  pub drop_props-cases :
      (d cat : Map Number) (p : String)
      → (get (drop_props S cat d) p ≡ get cat p)
        ⊎ ((get (drop_props S cat d) p ≡ none) × (contains (keys d) p ≡ true))
  unfolding drop_props
  drop_props-cases empty cat p = inl refl
  drop_props-cases (entry q v d) cat p = elim (Bool-cases (option_eq S (get cat q) (some v))) [
    | inr e ↦ rw e (elim (drop_props-cases d cat p) [
      | inl a ↦ inl a
      | inr (a, b) ↦ inr (a, ground (arith, b))
    ])
    | inl e ↦ rw e (elim (drop_props-cases d (remove cat q) p) [
      | inr (a, b) ↦ inr (a, ground (arith, b))
      | inl a ↦ elim (Bool-cases (str_eq q p)) [
        | inl t ↦ inr (ground (arith, a, t, E.get-remove cat q p), ground (arith, t))
        | inr t ↦ inl (ground (arith, a, t, E.get-remove cat q p))
      ]
    ])
  ]

  abbrev pub drop_at : Option (Value Number) → Option (Map Number) → Option (Value Number)
  drop_at (some (object c)) (some d) = some (object (drop_props S c d))
  drop_at o _ = o

  drop_at-none : (o : Option (Value Number)) → drop_at o none ≡ o
  drop_at-none none = refl
  drop_at-none (some (object c)) = refl
  drop_at-none (some null) = refl
  drop_at-none (some (bool b)) = refl
  drop_at-none (some (number n)) = refl
  drop_at-none (some (string s)) = refl
  drop_at-none (some (array xs)) = refl

  drop_category-get :
      (value : Map Number) (c cat : String) (obj dmap : Option (Map Number))
      → str_eq c cat ≡ false
      → get (drop_category S value c obj dmap) cat ≡ get value cat
  drop_category-get value c cat (some o) (some d) h =
      L.get-insert value c cat (object (drop_props S o d)) ∙ ground (arith, h)
  drop_category-get value c cat none d h = refl
  drop_category-get value c cat (some o) none h = refl

  drop_category-own :
      (value : Map Number) (cat : String) (o : Option (Value Number)) (dmap : Option (Map Number))
      → get value cat ≡ o
      → get (drop_category S value cat (object_at S o) dmap) cat ≡ drop_at o dmap
  drop_category-own value cat (some (object c)) (some d) h =
      L.get-insert value cat cat _ ∙ ground (arith, eq_refl cat)
  drop_category-own value cat none d h = h
  drop_category-own value cat (some (object c)) none h = h
  drop_category-own value cat (some null) d h = h
  drop_category-own value cat (some (bool b)) d h = h
  drop_category-own value cat (some (number n)) d h = h
  drop_category-own value cat (some (string s)) d h = h
  drop_category-own value cat (some (array xs)) d h = h

  dedup_styles-absent :
      (D value : Map Number) (cat : String)
      → contains (keys D) cat ≡ false
      → get (dedup_styles S value D) cat ≡ get value cat
  unfolding dedup_styles
  dedup_styles-absent empty value cat h = refl
  dedup_styles-absent (entry c v D) value cat h =
      dedup_styles-absent D _ cat (ground (arith, h))
      ∙ drop_category-get value c cat _ _ (ground (arith, h))

  -- a category loses what its entry in the defaults has
  pub get-dedup_styles :
      (D value : Map Number) (cat : String)
      → IsUnique D
      → get (dedup_styles S value D) cat ≡ drop_at (get value cat) (object_at S (find_entry D cat))
  unfolding dedup_styles
  get-dedup_styles empty value cat u = sym (drop_at-none (get value cat))
  get-dedup_styles (entry c v D) value cat (a, u) = elim (Bool-cases (str_eq c cat)) [
    | inl t ↦
        subst
          (λ k.
            get
              (dedup_styles S (drop_category S value c (object_at S (get value c)) (as_object v)) D)
              k
            ≡ drop_at (get value k) (object_at S (if str_eq c k then some v else find_entry D k)))
          ((eq_iff c cat).0 t)
          (dedup_styles-absent D _ c a
            ∙ drop_category-own value c (get value c) (as_object v) refl
            ∙ rw (eq_refl c) refl)
    | inr t ↦ rw t (
        get-dedup_styles D _ cat u
        ∙ ap (λ o. drop_at o (object_at S (find_entry D cat)))
            (drop_category-get value c cat (object_at S (get value c)) (as_object v) t))
  ]
