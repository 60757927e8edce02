-- ===== src/Output/Hoist/Restored.antt =====
-- The styles that `dedup_styles` leaves out come back when a snapshot is loaded.
use sniff_css.Prelude.{
  ℕ, String, ◌≡◌, refl, ap, ◌∙◌, subst, sym, true, false, Option, none, some, List, arith,
  if◌then◌else◌, is_some, str_eq, eq_iff, eq_refl, contains, get_elem?, Bool-cases, ◌⊎◌, inl, inr,
}
use sniff_css.Json.{
  Value, null, bool, number, string, array, object, Map, empty, entry, as_object, keys, find_entry,
  Serde, MapLaws, EntryLaws, EqLaws, IsUnique, option_eq,
}
use sniff_css.Model.Defaults.{fill_props, fill_with, fill_category, category_of, fill_styles}
use sniff_css.Model.Defaults.Laws.{or_else, get-fill_props}
use sniff_css.Output.Hoist.{
  object_at, get_in, style_at, category_defaults, drop_props, dedup_styles,
}
use sniff_css.Output.Hoist.Removed.{drop_at, drop_props-cases, get-dedup_styles}
use sniff_css.Output.Hoist.Common.{category_defaults-IsUnique, category_defaults-common}

module _ (S : Serde) (L : MapLaws S) where
  open S use {Number, get, insert}

  -- a category that is filled from its entry in the defaults
  abbrev fill_at : Option (Value Number) → Option (Map Number) → Option (Value Number)
  fill_at o none = o
  fill_at none (some d) = some (object (fill_props S d empty))
  fill_at (some (object c)) (some d) = some (object (fill_props S d c))
  fill_at (some v) (some d) = some v

  fill_at-none : (o : Option (Value Number)) → fill_at o none ≡ o
  fill_at-none none = refl
  fill_at-none (some v) = refl

  fill_category-get :
      (styles : Map Number) (c cat : String) (d : Map Number) (v : Value Number)
      → str_eq c cat ≡ false
      → get (fill_category S styles c d v) cat ≡ get styles cat
  fill_category-get styles c cat d (object o) h = L.get-insert styles c cat _ ∙ rw h refl
  fill_category-get styles c cat d null h = L.get-insert styles c cat _ ∙ rw h refl
  fill_category-get styles c cat d (bool b) h = L.get-insert styles c cat _ ∙ rw h refl
  fill_category-get styles c cat d (number n) h = L.get-insert styles c cat _ ∙ rw h refl
  fill_category-get styles c cat d (string s) h = L.get-insert styles c cat _ ∙ rw h refl
  fill_category-get styles c cat d (array xs) h = L.get-insert styles c cat _ ∙ rw h refl

  fill_with-get :
      (styles : Map Number) (c cat : String) (d : Option (Map Number))
      → str_eq c cat ≡ false
      → get (fill_with S styles c d) cat ≡ get styles cat
  fill_with-get styles c cat none h = refl
  fill_with-get styles c cat (some d) h =
      fill_category-get styles c cat d (category_of S styles c) h

  get-insert_same : (m : Map Number) (k : String) (v : Value Number) → get (insert m k v) k ≡ some v
  get-insert_same m k v = L.get-insert m k k v ∙ rw (eq_refl k) refl

  fill_with-own :
      (styles : Map Number) (cat : String) (o : Option (Value Number)) (d : Option (Map Number))
      → get styles cat ≡ o
      → get (fill_with S styles cat d) cat ≡ fill_at o d
  fill_with-own styles cat o none h = h ∙ sym (fill_at-none o)
  fill_with-own styles cat none (some d) h =
      rw (h, fill_with, category_of) (get-insert_same styles cat _)
  fill_with-own styles cat (some (object c)) (some d) h =
      rw (h, fill_with, category_of) (get-insert_same styles cat _)
  fill_with-own styles cat (some null) (some d) h =
      rw (h, fill_with, category_of) (get-insert_same styles cat _)
  fill_with-own styles cat (some (bool b)) (some d) h =
      rw (h, fill_with, category_of) (get-insert_same styles cat _)
  fill_with-own styles cat (some (number n)) (some d) h =
      rw (h, fill_with, category_of) (get-insert_same styles cat _)
  fill_with-own styles cat (some (string s)) (some d) h =
      rw (h, fill_with, category_of) (get-insert_same styles cat _)
  fill_with-own styles cat (some (array xs)) (some d) h =
      rw (h, fill_with, category_of) (get-insert_same styles cat _)

  fill_styles-absent :
      (D styles : Map Number) (cat : String)
      → contains (keys D) cat ≡ false
      → get (fill_styles S D styles) cat ≡ get styles cat
  unfolding fill_styles
  fill_styles-absent empty styles cat h = refl
  fill_styles-absent (entry c v D) styles cat h =
      fill_styles-absent D _ cat (ground (arith, h))
      ∙ fill_with-get styles c cat (as_object v) (ground (arith, h))

  get-fill_styles :
      (D styles : Map Number) (cat : String)
      → IsUnique D
      → get (fill_styles S D styles) cat ≡ fill_at (get styles cat) (object_at S (find_entry D cat))
  unfolding fill_styles
  get-fill_styles empty styles cat u = sym (fill_at-none (get styles cat))
  get-fill_styles (entry c v D) styles cat (a, u) = elim (Bool-cases (str_eq c cat)) [
    | inl t ↦
        subst
          (λ k.
            get (fill_styles S D (fill_with S styles c (as_object v))) k
            ≡ fill_at (get styles k) (object_at S (if str_eq c k then some v else find_entry D k)))
          ((eq_iff c cat).0 t)
          (fill_styles-absent D _ c a
            ∙ fill_with-own styles c (get styles c) (as_object v) refl
            ∙ rw (eq_refl c) refl)
    | inr t ↦ rw t (
        get-fill_styles D _ cat u
        ∙ ap (λ o. fill_at o (object_at S (find_entry D cat)))
            (fill_with-get styles c cat (as_object v) t))
  ]

  module _ (E : EntryLaws S) (Q : EqLaws S) where
    option_eq_refl : (o : Option (Value Number)) → option_eq S o o ≡ true
    option_eq_refl none = refl
    option_eq_refl (some v) = Q.eq_refl v

    option_eq_sym :
        (o : Option (Value Number)) (v : Value Number)
        → option_eq S o (some v) ≡ true
        → option_eq S (some v) o ≡ true
    option_eq_sym none v h = h
    option_eq_sym (some w) v h = Q.eq_sym v w ∙ h

    -- what is left of a property, filled from a default that it agrees with
    or_else-restores :
        (a o d : Option (Value Number))
        → ((a ≡ o) ⊎ ((a ≡ none) × (is_some d ≡ true)))
        → ((v : Value Number) → d ≡ some v → option_eq S o (some v) ≡ true)
        → option_eq S (or_else a d) o ≡ true
    or_else-restores (some v) o d (inl h) g =
        subst (λ x. option_eq S (some v) x ≡ true) h (Q.eq_refl v)
    or_else-restores (some v) o d (inr (h, i)) g = absurd (ground (arith, h))
    or_else-restores none o none (inl h) g = subst (λ x. option_eq S none x ≡ true) h refl
    or_else-restores none o none (inr (h, i)) g = absurd (ground (arith, i))
    or_else-restores none o (some w) c g = option_eq_sym o w (g w refl)

    object-restores :
        (c d : Map Number) (prop : String)
        → ((v : Value Number) → get d prop ≡ some v → option_eq S (get c prop) (some v) ≡ true)
        → option_eq S (get (fill_props S d (drop_props S c d)) prop) (get c prop) ≡ true
    object-restores c d prop g =
        subst (λ o. option_eq S o (get c prop) ≡ true)
          (sym (get-fill_props S L d (drop_props S c d) prop))
          (or_else-restores (get (drop_props S c d) prop) (get c prop) (get d prop)
            (subst
              (λ b.
                (get (drop_props S c d) prop ≡ get c prop)
                ⊎ ((get (drop_props S c d) prop ≡ none) × (b ≡ true)))
              (L.contains-keys d prop) (drop_props-cases S L E d c prop))
            g)

    absent-restores :
        (d : Map Number) (prop : String)
        → ((v : Value Number) → get d prop ≡ some v → option_eq S none (some v) ≡ true)
        → option_eq S (get (fill_props S d empty) prop) none ≡ true
    absent-restores d prop g =
        subst (λ o. option_eq S o none ≡ true) (sym (get-fill_props S L d empty prop))
          (or_else-restores (get empty prop) none (get d prop) (inl (L.get-empty prop)) g)

    fill_at-drop_at :
        (o : Option (Value Number)) (d : Option (Map Number)) (prop : String)
        → ((v : Value Number)
            → get_in S d prop ≡ some v
            → option_eq S (get_in S (object_at S o) prop) (some v) ≡ true)
        → option_eq S
            (get_in S (object_at S (fill_at (drop_at S L E o d) d)) prop)
            (get_in S (object_at S o) prop)
          ≡ true
    fill_at-drop_at none none prop g = refl
    fill_at-drop_at none (some d) prop g = absent-restores d prop g
    fill_at-drop_at (some (object c)) none prop g = option_eq_refl (get c prop)
    fill_at-drop_at (some (object c)) (some d) prop g = object-restores c d prop g
    fill_at-drop_at (some null) none prop g = refl
    fill_at-drop_at (some null) (some d) prop g = refl
    fill_at-drop_at (some (bool b)) none prop g = refl
    fill_at-drop_at (some (bool b)) (some d) prop g = refl
    fill_at-drop_at (some (number n)) none prop g = refl
    fill_at-drop_at (some (number n)) (some d) prop g = refl
    fill_at-drop_at (some (string s)) none prop g = refl
    fill_at-drop_at (some (string s)) (some d) prop g = refl
    fill_at-drop_at (some (array xs)) none prop g = refl
    fill_at-drop_at (some (array xs)) (some d) prop g = refl

    restored :
        (D m : Map Number) (cat prop : String)
        → IsUnique D
        → ((v : Value Number)
            → style_at S D cat prop ≡ some v
            → option_eq S (style_at S m cat prop) (some v) ≡ true)
        → option_eq S
            (style_at S (fill_styles S D (dedup_styles S m D)) cat prop)
            (style_at S m cat prop)
          ≡ true
    restored D m cat prop u g =
        subst (λ o. option_eq S (get_in S (object_at S o) prop) (style_at S m cat prop) ≡ true)
          (sym (
            get-fill_styles D _ cat u
            ∙ ap (λ o. fill_at o (object_at S (find_entry D cat)))
                (get-dedup_styles S L E D m cat u)))
          (fill_at-drop_at (get m cat) (object_at S (find_entry D cat)) prop
            (λ v e. g v (ap (λ o. get_in S (object_at S o) prop) (L.get-find D cat) ∙ e)))

    -- The loader gives back what the writer hoisted: for a node of a capture, every property of
    -- every category has an equal value, or none as before, once `dedup_styles` has dropped what
    -- the defaults of all the nodes hold and `fill_styles` has filled the defaults in.
    pub fill_styles-dedup_styles :
        (per_node : List (Map Number)) (i : ℕ) {m : Map Number} (cat prop : String)
        → get_elem? per_node i ≡ some m
        → option_eq S
            (style_at S
              (fill_styles S
                (category_defaults S per_node)
                (dedup_styles S m (category_defaults S per_node)))
              cat
              prop)
            (style_at S m cat prop)
          ≡ true
    fill_styles-dedup_styles per_node i {m} cat prop h =
        restored (category_defaults S per_node) m cat prop
          (category_defaults-IsUnique S L E per_node)
          (λ v. category_defaults-common S L E per_node i cat prop v h)
