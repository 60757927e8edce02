-- ===== src/Rpc/Client/Table.antt =====
-- `PendingMap` of crates/sniff-cdp/src/jsonrpc.rs, a map from ids to channels, and writes to a list.
use sniff_css.Prelude.{
  ℕ, zero, suc, ◌<◌, ◌≡◌, refl, ap, subst, Option, none, some, List, [], ◌∷◌, ◌++◌, ◌==◌, arith,
  if◌then◌else◌, get_elem?, length,
}
use mathlib.Core.Option.{some-injective}

abbrev pub PendingMap : Type 0
PendingMap = List (ℕ × ℕ)

abbrev pub lookup : PendingMap → ℕ → Option ℕ
lookup [] i = none
lookup ((j, k) ∷ p) i = if j == i then some k else lookup p i

abbrev pub remove : PendingMap → ℕ → PendingMap
remove [] i = []
remove ((j, k) ∷ p) i = let rest = remove p i in if j == i then rest else (j, k) ∷ rest

abbrev pub insert : PendingMap → ℕ → ℕ → PendingMap
insert p i k = (i, k) ∷ remove p i

pub lookup-remove :
    (p : PendingMap) (i j : ℕ) → lookup (remove p i) j ≡ (if i == j then none else lookup p j)
lookup-remove [] i j = ground arith
lookup-remove ((a, k) ∷ p) i j = ground (arith, lookup-remove p i j)

pub lookup-insert :
    (p : PendingMap) (i k j : ℕ) → lookup (insert p i k) j ≡ (if i == j then some k else lookup p j)
lookup-insert p i k j = ground (arith, lookup-remove p i j)

-- the element at a place changes
abbrev pub update : {A : Type 0} → List A → ℕ → (A → A) → List A
update [] i f = []
update (x ∷ xs) zero f = f x ∷ xs
update (x ∷ xs) (suc i) f = x ∷ update xs i f

pub length-update :
    {A : Type 0} (xs : List A) (i : ℕ) (f : A → A) → length (update xs i f) ≡ length xs
length-update [] i f = refl
length-update (x ∷ xs) zero f = refl
length-update (x ∷ xs) (suc i) f = ap suc (length-update xs i f)

-- what holds of the elements at their places holds after a change that keeps it at its place
pub update_all :
    {A : Type 0} (P : ℕ → A → Type 0) (xs : List A) (i : ℕ) (f : A → A)
    → ((j : ℕ) (x : A) → get_elem? xs j ≡ some x → (j ≡ i → ⊥) → P j x)
    → ((x : A) → get_elem? xs i ≡ some x → P i (f x))
    → (j : ℕ) (x : A) → get_elem? (update xs i f) j ≡ some x
    → P j x
update_all P [] i f h g j x e = absurd (ground (arith, e))
update_all P (y ∷ xs) zero f h g zero x e = subst (P 0) (some-injective _ _ e) (g y refl)
update_all P (y ∷ xs) zero f h g (suc j) x e = h (suc j) x e (λ p. omega (arith, p))
update_all P (y ∷ xs) (suc i) f h g zero x e = h zero x e (λ p. omega (arith, p))
update_all P (y ∷ xs) (suc i) f h g (suc j) x e =
    update_all (λ k. P (suc k)) xs i f (λ k z q n. h (suc k) z q (λ p. n (omega (arith, p)))) g j x
      e

pub get-update_missing :
    {A : Type 0} (xs : List A) (i j : ℕ) (f : A → A)
    → get_elem? (update xs i f) j ≡ none
    → get_elem? xs j ≡ none
get-update_missing [] i j f h = refl
get-update_missing (x ∷ xs) zero zero f h = absurd (ground (arith, h))
get-update_missing (x ∷ xs) zero (suc j) f h = h
get-update_missing (x ∷ xs) (suc i) zero f h = absurd (ground (arith, h))
get-update_missing (x ∷ xs) (suc i) (suc j) f h = get-update_missing xs i j f h

-- an element of a list to which one was appended
pub append_all :
    {A : Type 0} (P : ℕ → A → Type 0) (xs : List A) (y : A)
    → ((j : ℕ) (x : A) → get_elem? xs j ≡ some x → P j x)
    → P (length xs) y
    → (j : ℕ) (x : A) → get_elem? (xs ++ y ∷ []) j ≡ some x
    → P j x
append_all P [] y h g zero x e = subst (P 0) (some-injective _ _ e) g
append_all P [] y h g (suc j) x e = absurd (ground (arith, e))
append_all P (z ∷ xs) y h g zero x e = h zero x e
append_all P (z ∷ xs) y h g (suc j) x e = append_all (λ k. P (suc k)) xs y (λ k. h (suc k)) g j x e

pub get-append_missing :
    {A : Type 0} (xs : List A) (y : A) (j : ℕ)
    → get_elem? (xs ++ y ∷ []) j ≡ none
    → (get_elem? xs j ≡ none) × (length xs < j)
get-append_missing [] y zero h = absurd (ground (arith, h))
get-append_missing [] y (suc j) h = (refl, omega arith)
get-append_missing (z ∷ xs) y zero h = absurd (ground (arith, h))
get-append_missing (z ∷ xs) y (suc j) h =
    let (a, b) = get-append_missing xs y j h in (a, omega (arith, b))

pub get_length : {A : Type 0} (xs : List A) → get_elem? xs (length xs) ≡ none
get_length [] = refl
get_length (x ∷ xs) = get_length xs

pub get-update_other :
    {A : Type 0} (xs : List A) (i j : ℕ) (f : A → A)
    → (j ≡ i → ⊥)
    → get_elem? (update xs i f) j ≡ get_elem? xs j
get-update_other [] i j f h = refl
get-update_other (x ∷ xs) zero zero f h = absurd (h refl)
get-update_other (x ∷ xs) zero (suc j) f h = refl
get-update_other (x ∷ xs) (suc i) zero f h = refl
get-update_other (x ∷ xs) (suc i) (suc j) f h =
    get-update_other xs i j f (λ z. h (omega (arith, z)))

pub get-append :
    {A : Type 0} (xs ys : List A) (j : ℕ) {x : A}
    → get_elem? xs j ≡ some x
    → get_elem? (xs ++ ys) j ≡ some x
get-append [] ys j h = absurd (ground (arith, h))
get-append (y ∷ xs) ys zero h = h
get-append (y ∷ xs) ys (suc j) h = get-append xs ys j h

pub get-update :
    {A : Type 0} (xs : List A) (k : ℕ) (f : A → A) {x : A}
    → get_elem? xs k ≡ some x
    → get_elem? (update xs k f) k ≡ some (f x)
get-update [] k f h = absurd (ground (arith, h))
get-update (y ∷ xs) zero f h = ap some (ap f (some-injective _ _ h))
get-update (y ∷ xs) (suc k) f h = get-update xs k f h
