-- ===== src/Naming/Slugs/Safe.antt =====
-- A slug is safe in a path: its characters, its length and its first character.
use Prim.Native.Char.{Char, code}
use sniff_css.Prelude.{
  ℕ, zero, suc, ◌≤◌, ◌≡◌, refl, String, Bool, true, false, ◌&&◌, ◌||◌, not, arith, ◌==◌,
  if◌then◌else◌, Bool-cases, inl, inr,
}
use sniff_css.Naming.Slugs.{
  is_kept, is_edge, underscore, collapse, trim_front, trim_back, truncate, slug,
}

-- letters, digits, `.`, `-` and `_`
abbrev pub is_safe : Char → Bool
is_safe c = is_kept c || code c == b'_'

abbrev pub all_safe : String → Bool
all_safe String.[] = true
all_safe (String.◌∷◌ c s) = is_safe c && all_safe s

abbrev pub char_count : String → ℕ
char_count String.[] = 0
char_count (String.◌∷◌ c s) = suc (char_count s)

all_safe-underscore :
    (prev : Bool) (s : String)
    → all_safe s ≡ true
    → all_safe (if prev then s else String.◌∷◌ underscore s) ≡ true
all_safe-underscore true s h = h
all_safe-underscore false s h = h

all_safe-collapse : (prev : Bool) (s : String) → all_safe (collapse prev s) ≡ true
unfolding collapse
all_safe-collapse prev String.[] = refl
all_safe-collapse prev (String.◌∷◌ c s) = elim (Bool-cases (is_kept c)) [
  | inl e ↦ rw e (rw e (all_safe-collapse false s))
  | inr e ↦ rw e (all_safe-underscore prev (collapse true s) (all_safe-collapse true s))
]

all_safe-trim_front : (s : String) → all_safe s ≡ true → all_safe (trim_front s) ≡ true
unfolding trim_front
all_safe-trim_front String.[] h = refl
all_safe-trim_front (String.◌∷◌ c s) h = ground (arith, all_safe-trim_front s)

all_safe-trim_back : (s : String) → all_safe s ≡ true → all_safe (trim_back s) ≡ true
unfolding trim_back
all_safe-trim_back String.[] h = refl
all_safe-trim_back (String.◌∷◌ c s) h = ground (arith, all_safe-trim_back s)

all_safe-truncate : (n : ℕ) (s : String) → all_safe s ≡ true → all_safe (truncate n s) ≡ true
unfolding truncate
all_safe-truncate zero s h = refl
all_safe-truncate (suc n) String.[] h = refl
all_safe-truncate (suc n) (String.◌∷◌ c s) h = ground (arith, all_safe-truncate n s)

truncate-le : (n : ℕ) (s : String) → char_count (truncate n s) ≤ n
unfolding truncate
truncate-le zero s = omega arith
truncate-le (suc n) String.[] = omega arith
truncate-le (suc n) (String.◌∷◌ c s) = omega (arith, truncate-le n s)

-- no `_`, `.` or `-` in front
abbrev pub starts_plain : String → Bool
starts_plain String.[] = true
starts_plain (String.◌∷◌ c s) = not (is_edge c)

starts_plain-trim_front : (s : String) → starts_plain (trim_front s) ≡ true
unfolding trim_front
starts_plain-trim_front String.[] = refl
starts_plain-trim_front (String.◌∷◌ c s) = ground (arith, starts_plain-trim_front s)

starts_plain-trim_back : (s : String) → starts_plain s ≡ true → starts_plain (trim_back s) ≡ true
unfolding trim_back
starts_plain-trim_back String.[] h = refl
starts_plain-trim_back (String.◌∷◌ c s) h = ground arith

starts_plain-truncate :
    (n : ℕ) (s : String) → starts_plain s ≡ true → starts_plain (truncate n s) ≡ true
unfolding truncate
starts_plain-truncate zero s h = refl
starts_plain-truncate (suc n) String.[] h = refl
starts_plain-truncate (suc n) (String.◌∷◌ c s) h = h

-- A slug has only letters, digits, `.`, `-` and `_`, does not start with one of the last three, and
-- is no longer than asked for.
pub slug-IsSafe :
    (raw : String) (max : ℕ)
    → (all_safe (slug raw max) ≡ true)
      × (starts_plain (slug raw max) ≡ true)
      × (char_count (slug raw max) ≤ max)
unfolding slug
slug-IsSafe raw max =
    let front = trim_front (collapse false raw) in
    (
      all_safe-truncate max (trim_back front) (
          all_safe-trim_back front
            (all_safe-trim_front (collapse false raw) (all_safe-collapse false raw))),
      starts_plain-truncate max (trim_back front)
          (starts_plain-trim_back front (starts_plain-trim_front (collapse false raw))),
      truncate-le max (trim_back front),
    )
