-- ===== src/Store/Names/Parsed.antt =====
-- The listing reads the names that the store gives.
use Prim.Native.Char.{Char}
use Prim.Native.String.{◌++◌ as str_append, char_at}
use Prim.Native.String.append
use sniff_css.Prelude.{
  ℕ, zero, suc, ◌+◌, ◌≡◌, refl, ap, ◌∙◌, sym, String, true, false, some, arith, is_empty_str,
  str_eq, Bool-cases, inl, inr, and_right, eq_iff, eq_refl,
}
use sniff_css.Contrast.Strings.{strip_prefix, strip_suffix}
use sniff_css.Naming.Slugs.{slug, path_of, snapshot_file_name_at}
use sniff_css.Store.Names.{
  split_at, stamp_from, is_timestamp, parse_snapshot_name, named, nonempty, and_then,
}

nil_append : (t : String) → str_append "" t ≡ t
nil_append t = append.nil t

cons_append :
    (c : Char) (s t : String) → str_append (String.◌∷◌ c s) t ≡ String.◌∷◌ c (str_append s t)
cons_append c s t = append.cons c s t

append_assoc_str : (a b c : String) → str_append (str_append a b) c ≡ str_append a (str_append b c)
append_assoc_str String.[] b c = rw (nil_append b, nil_append (str_append b c)) refl
append_assoc_str (String.◌∷◌ d a) b c =
    ap (λ x. str_append x c) (cons_append d a b)
    ∙ cons_append d (str_append a b) c
    ∙ ap (String.◌∷◌ d) (append_assoc_str a b c)
    ∙ sym (cons_append d a (str_append b c))

count : String → ℕ
count String.[] = 0
count (String.◌∷◌ c s) = suc (count s)

count-append : (s p : String) → count (str_append s p) ≡ count s + count p
unfolding count
count-append String.[] p = ap count (nil_append p) ∙ omega arith
count-append (String.◌∷◌ c s) p = ap count (cons_append c s p) ∙ omega (arith, count-append s p)

longer : (c : Char) (s p : String) → str_eq (String.◌∷◌ c (str_append s p)) p ≡ true → ⊥
unfolding count
longer c s p h =
    let e = ap count ((eq_iff (String.◌∷◌ c (str_append s p)) p).0 h) in
    omega (arith, e, count-append s p)

strip_suffix_self : (p : String) → strip_suffix p p ≡ some ""
unfolding strip_suffix
strip_suffix_self String.[] = refl
strip_suffix_self (String.◌∷◌ c s) = rw (eq_refl (String.◌∷◌ c s)) refl

pub strip_suffix-append : (p s : String) → strip_suffix p (str_append s p) ≡ some s
unfolding strip_suffix
strip_suffix-append p String.[] = ap (strip_suffix p) (nil_append p) ∙ strip_suffix_self p
strip_suffix-append p (String.◌∷◌ c s) =
    ap (strip_suffix p) (cons_append c s p)
    ∙ elim (Bool-cases (str_eq (String.◌∷◌ c (str_append s p)) p)) [
      | inl e ↦ absurd (longer c s p e)
      | inr e ↦ rw (e, strip_suffix-append p s) refl
    ]

-- a text is cut behind its first `n` characters
split_at-append : (n : ℕ) (a b : String) → count a ≡ n → split_at n (str_append a b) ≡ some (a, b)
unfolding split_at count
split_at-append zero String.[] b h = ap (λ s. some ("", s)) (nil_append b)
split_at-append zero (String.◌∷◌ c a) b h = absurd (omega (arith, h))
split_at-append (suc n) String.[] b h = absurd (omega (arith, h))
split_at-append (suc n) (String.◌∷◌ c a) b h =
    ap (split_at (suc n)) (cons_append c a b) ∙ rw (split_at-append n a b (omega (arith, h))) refl

stamp_from-count : (i : ℕ) (s : String) → stamp_from i s ≡ true → i + count s ≡ 15
unfolding stamp_from count
stamp_from-count i String.[] h = ground (arith, h)
stamp_from-count i (String.◌∷◌ c s) h = omega (arith, stamp_from-count (i + 1) s (and_right _ _ h))

abbrev target : String → String → String
target url selector = str_append (path_of url) (str_append "-" (slug selector 40))

strip_prefix-append : (p t : String) → strip_prefix p (str_append p t) ≡ some t
unfolding strip_prefix
strip_prefix-append String.[] t = ap some (nil_append t)
strip_prefix-append (String.◌∷◌ c p) t =
    ap (strip_prefix (String.◌∷◌ c p)) (cons_append c p t) ∙ ground (arith, strip_prefix-append p t)

named-target :
    (created t : String)
    → is_timestamp created ≡ true
    → is_empty_str t ≡ false
    → named created (str_append "Z" (str_append "-" t)) ≡ some (t, str_append created "Z")
named-target created t h n =
    rw (h, strip_prefix-append "Z" (str_append "-" t), strip_prefix-append "-" t, nonempty)
      (rw (n, nonempty) refl)

target-nonempty : (a b : String) → is_empty_str (str_append a (str_append "-" b)) ≡ false
target-nonempty String.[] b =
    ap is_empty_str (nil_append (str_append "-" b) ∙ cons_append (char_at "-" 0) "" b)
target-nonempty (String.◌∷◌ c a) b = ap is_empty_str (cons_append c a (str_append "-" b))

-- the parts of a name, put together from the left
whole :
    (created p s : String)
    → str_append
        (str_append created "Z")
        (str_append "-" (str_append p (str_append "-" (str_append s (str_append "." "jsonl")))))
      ≡ str_append
          (str_append created (str_append "Z" (str_append "-" (str_append p (str_append "-" s)))))
          ".jsonl"
whole created p s = simp append_assoc_str

-- The listing reads the name that the store gives to a snapshot: its target is the path and the
-- selector, and its time is the timestamp, if this has the form of one.
pub parse_snapshot_name-snapshot_file_name_at :
    (url selector created : String)
    → is_timestamp created ≡ true
    → parse_snapshot_name (snapshot_file_name_at url selector "jsonl" (str_append created "Z"))
      ≡ some (target url selector, str_append created "Z")
unfolding parse_snapshot_name snapshot_file_name_at
parse_snapshot_name-snapshot_file_name_at url selector created h =
    let t = target url selector in
    let stem = str_append created (str_append "Z" (str_append "-" t)) in
    ap parse_snapshot_name (whole created (path_of url) (slug selector 40))
    ∙ ap (λ o. and_then o (λ s. and_then (split_at 15 s) (λ (c, b). named c b)))
        (strip_suffix-append ".jsonl" stem)
    ∙ ap (λ o. and_then o (λ (c, b). named c b))
        (split_at-append 15 created (str_append "Z" (str_append "-" t))
          (omega (arith, stamp_from-count 0 created h)))
    ∙ named-target created t h (target-nonempty (path_of url) (slug selector 40))
