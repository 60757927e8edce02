-- ===== src/Naming/Slugs/Domains.antt =====
-- The directory name that a URL gives.
use Prim.Native.Char.{Char, code}
use Prim.Native.String.{char_at}
use sniff_css.Prelude.{
  and_left, and_right, and_true, ℕ, zero, suc, ◌<◌, ◌≡◌, refl, ap, ◌∙◌, ◌⊎◌, ◌-◌, String, true,
  false, ◌&&◌, not, arith, leb, if◌then◌else◌, is_empty_str, Bool-cases, inl, inr,
}
use sniff_css.Naming.Slugs.{
  is_alphanumeric, is_edge, host_of, until, is_authority_end, rest_of, slug, lower, to_lowercase,
  domain_of,
}
use sniff_css.Naming.Slugs.Safe.{is_safe, all_safe, starts_plain, slug-IsSafe}

letter-IsAlphanumeric :
    (k : ℕ) → k < 26 → is_alphanumeric (char_at "abcdefghijklmnopqrstuvwxyz" k) ≡ true
letter-IsAlphanumeric zero h = refl
letter-IsAlphanumeric (suc zero) h = refl
letter-IsAlphanumeric (suc (suc zero)) h = refl
letter-IsAlphanumeric (suc (suc (suc zero))) h = refl
letter-IsAlphanumeric (suc (suc (suc (suc zero)))) h = refl
letter-IsAlphanumeric (suc (suc (suc (suc (suc zero))))) h = refl
letter-IsAlphanumeric (suc (suc (suc (suc (suc (suc zero)))))) h = refl
letter-IsAlphanumeric (suc (suc (suc (suc (suc (suc (suc zero))))))) h = refl
letter-IsAlphanumeric (suc (suc (suc (suc (suc (suc (suc (suc zero)))))))) h = refl
letter-IsAlphanumeric (suc (suc (suc (suc (suc (suc (suc (suc (suc zero))))))))) h = refl
letter-IsAlphanumeric (suc (suc (suc (suc (suc (suc (suc (suc (suc (suc zero)))))))))) h = refl
letter-IsAlphanumeric (suc (suc (suc (suc (suc (suc (suc (suc (suc (suc (suc zero))))))))))) h =
    refl
letter-IsAlphanumeric (suc (suc (suc (suc (suc (suc (suc (suc (suc (suc (suc (suc zero))))))))))))
      h =
    refl
letter-IsAlphanumeric
      (suc (suc (suc (suc (suc (suc (suc (suc (suc (suc (suc (suc (suc zero))))))))))))) h =
    refl
letter-IsAlphanumeric
      (suc (suc (suc (suc (suc (suc (suc (suc (suc (suc (suc (suc (suc (suc zero)))))))))))))) h =
    refl
letter-IsAlphanumeric
      (suc (suc (suc (suc (suc (suc (suc (suc (suc (suc (suc (suc (suc (suc (suc zero)))))))))))))))
      h =
    refl
letter-IsAlphanumeric
      (suc (
        suc
          (suc (suc (suc (suc (suc (suc (suc (suc (suc (suc (suc (suc (suc (suc zero))))))))))))))))
      h =
    refl
letter-IsAlphanumeric
      (suc (
        suc (
          suc (
            suc
              (suc (suc (suc (suc (suc (suc (suc (suc (suc (suc (suc (suc (suc zero)))))))))))))))))
      h =
    refl
letter-IsAlphanumeric
      (suc (
        suc (
          suc (
            suc (
              suc (
                suc
                  (suc (suc (suc (suc (suc (suc (suc (suc (suc (suc (suc (suc zero))))))))))))))))))
      h =
    refl
letter-IsAlphanumeric
      (suc (
        suc (
          suc (
            suc (
              suc (
                suc (
                  suc (
                    suc
                      (suc (suc (suc (suc (suc (suc (suc (suc (suc (suc (suc zero)))))))))))))))))))
      h =
    refl
letter-IsAlphanumeric
      (suc (
        suc (
          suc (
            suc (
              suc (
                suc (
                  suc (
                    suc (
                      suc (
                        suc
                          (suc (suc (suc (suc (suc (suc (suc (suc (suc (suc zero))))))))))))))))))))
      h =
    refl
letter-IsAlphanumeric
      (suc (
        suc (
          suc (
            suc (
              suc (
                suc (
                  suc (
                    suc (
                      suc (
                        suc (
                          suc (
                            suc
                              (suc (suc (suc (suc (suc (suc (suc (suc (suc zero)))))))))))))))))))))
      h =
    refl
letter-IsAlphanumeric
      (suc (
        suc (
          suc (
            suc (
              suc (
                suc (
                  suc (
                    suc (
                      suc (
                        suc (
                          suc (
                            suc (
                              suc (
                                suc
                                  (suc (suc (suc (suc (suc (suc (suc (suc zero))))))))))))))))))))))
      h =
    refl
letter-IsAlphanumeric
      (suc (
        suc (
          suc (
            suc (
              suc (
                suc (
                  suc (
                    suc (
                      suc (
                        suc (
                          suc (
                            suc (
                              suc (
                                suc (
                                  suc (
                                    suc
                                      (suc (suc (suc (suc (suc (suc (suc zero)))))))))))))))))))))))
      h =
    refl
letter-IsAlphanumeric
      (suc (
        suc (
          suc (
            suc (
              suc (
                suc (
                  suc (
                    suc (
                      suc (
                        suc (
                          suc (
                            suc (
                              suc (
                                suc (
                                  suc (
                                    suc (
                                      suc (
                                        suc
                                          (suc (suc (suc (suc (suc (suc zero))))))))))))))))))))))))
      h =
    refl
letter-IsAlphanumeric
      (suc (
        suc (
          suc (
            suc (
              suc (
                suc (
                  suc (
                    suc (
                      suc (
                        suc (
                          suc (
                            suc (
                              suc (
                                suc (
                                  suc (
                                    suc (
                                      suc (
                                        suc (
                                          suc (
                                            suc
                                              (suc (suc (suc (suc (suc zero)))))))))))))))))))))))))
      h =
    refl
letter-IsAlphanumeric
      (suc (
        suc (
          suc (
            suc (
              suc (
                suc (
                  suc (
                    suc (
                      suc (
                        suc (
                          suc (
                            suc (
                              suc (
                                suc (
                                  suc (
                                    suc (
                                      suc (
                                        suc (
                                          suc (
                                            suc (
                                              suc
                                                (suc (suc (suc (suc (suc k))))))))))))))))))))))))))
      h =
    absurd (omega arith)

-- a letter stands for an upper case one, and any other character stays
lower-cases : (c : Char) → (is_alphanumeric (lower c) ≡ true) ⊎ (lower c ≡ c)
lower-cases c = elim (Bool-cases (leb b'A' (code c) && leb (code c) b'Z')) [
  | inl e ↦ inl (rw e (letter-IsAlphanumeric (code c - b'A') (ground (arith, e))))
  | inr e ↦ inr (rw e refl)
]

lower-safe : (c : Char) → is_safe c ≡ true → is_safe (lower c) ≡ true
lower-safe c h = elim (lower-cases c) [ inl e ↦ ground (arith, e) | inr e ↦ ap is_safe e ∙ h ]

all_safe-to_lowercase : (s : String) → all_safe s ≡ true → all_safe (to_lowercase s) ≡ true
unfolding to_lowercase
all_safe-to_lowercase String.[] h = refl
all_safe-to_lowercase (String.◌∷◌ c s) h =
    and_true _ _ (lower-safe c (and_left (is_safe c) (all_safe s) h))
      (all_safe-to_lowercase s (and_right (is_safe c) (all_safe s) h))

starts_plain-to_lowercase :
    (s : String) → starts_plain s ≡ true → starts_plain (to_lowercase s) ≡ true
unfolding to_lowercase
starts_plain-to_lowercase String.[] h = refl
starts_plain-to_lowercase (String.◌∷◌ c s) h = elim (lower-cases c) [
  | inl e ↦ ground (arith, e)
  | inr e ↦ ap (λ d. not (is_edge d)) e ∙ h
]

-- what may stand as the name of a directory: safe characters, at least one, and no `.` in front
abbrev pub IsComponent : String → Type 0
IsComponent s = (all_safe s ≡ true) × (starts_plain s ≡ true) × (is_empty_str s ≡ false)

to_lowercase-IsComponent : (s : String) → IsComponent s → IsComponent (to_lowercase s)
unfolding to_lowercase
to_lowercase-IsComponent String.[] h = h
to_lowercase-IsComponent (String.◌∷◌ c s) (a, b, e) =
    (all_safe-to_lowercase (String.◌∷◌ c s) a, starts_plain-to_lowercase (String.◌∷◌ c s) b, refl)

slug_or_local :
    (s : String)
    → all_safe s ≡ true
    → starts_plain s ≡ true
    → IsComponent (if is_empty_str s then "local" else to_lowercase s)
slug_or_local String.[] a b = (refl, refl, refl)
slug_or_local (String.◌∷◌ c s) a b = to_lowercase-IsComponent (String.◌∷◌ c s) (a, b, refl)

-- The directory of a URL is one safe component of a path, whatever the URL is: it has no `/`, is not
-- empty and does not start with a `.`, so it is neither `.` nor `..`.
pub domain_of-IsComponent : (url : String) → IsComponent (domain_of url)
unfolding domain_of
domain_of-IsComponent url =
    let (a, b, c) = slug-IsSafe (host_of (until is_authority_end (rest_of url))) 80 in
    slug_or_local (slug (host_of (until is_authority_end (rest_of url))) 80) a b
