-- ===== src/Base/Lists.antt =====
-- Lists measured by native numbers, predicates over lists, and tables of rows.
use Prim.Native.Nat.{ℕ, zero, suc, ◌+◌}
use mathlib.Core.Path.{◌≡◌, refl}
use mathlib.Core.Bool.{Bool, true, false}
use mathlib.Core.List.{List, [], ◌∷◌, ◌++◌}
use mathlib.Core.Option.{Option, none, some}
use mathlib.Core.Logic.{inl, inr}
use native.Mathlib.Omega.{arith}
use wildman_service.Base.Tests.{if◌then◌else◌, Bool-cases}

module _ {ℓ} {A : Type ℓ} where
  abbrev pub length : List A → ℕ
  length [] = 0
  length (x ∷ xs) = suc (length xs)

  pub length-append : (xs ys : List A) → length (xs ++ ys) ≡ length xs + length ys
  length-append [] ys = omega arith
  length-append (x ∷ xs) ys = omega (arith, length-append xs ys)

  abbrev pub take : ℕ → List A → List A
  take zero xs = []
  take (suc n) [] = []
  take (suc n) (x ∷ xs) = x ∷ take n xs

  abbrev pub drop : ℕ → List A → List A
  drop zero xs = xs
  drop (suc n) [] = []
  drop (suc n) (x ∷ xs) = drop n xs

  abbrev pub All {κ} : (A → Type κ) → List A → Type κ
  All P [] = Unit
  All P (x ∷ xs) = P x × All P xs

  pub All-append {κ} : (P : A → Type κ) (xs ys : List A) → All P xs → All P ys → All P (xs ++ ys)
  All-append P [] ys h k = k
  All-append P (x ∷ xs) ys h k = (h.0, All-append P xs ys h.1 k)

  abbrev pub map_option {κ} : {B : Type κ} → (A → B) → Option A → Option B
  map_option f none = none
  map_option f (some a) = some (f a)

  -- A SQL table is the list of its rows, oldest first. `SELECT ... WHERE` at most one row:
  unfoldable pub first_where : (A → Bool) → List A → Option A
  first_where p [] = none
  first_where p (x ∷ xs) = if p x then some x else first_where p xs

  -- `SELECT EXISTS`
  unfoldable pub exists_where : (A → Bool) → List A → Bool
  exists_where p [] = false
  exists_where p (x ∷ xs) = if p x then true else exists_where p xs

  -- `UPDATE ... SET ... WHERE`
  unfoldable pub update_where : (A → Bool) → (A → A) → List A → List A
  update_where p f [] = []
  update_where p f (x ∷ xs) = (if p x then f x else x) ∷ update_where p f xs

  -- `DELETE ... WHERE`
  unfoldable pub delete_where : (A → Bool) → List A → List A
  delete_where p [] = []
  delete_where p (x ∷ xs) = let rest = delete_where p xs in if p x then rest else x ∷ rest

  -- RowsAffected
  unfoldable pub count_where : (A → Bool) → List A → ℕ
  count_where p [] = 0
  count_where p (x ∷ xs) = (if p x then 1 else 0) + count_where p xs

module _ {ℓ} {A : Type ℓ} (p : A → Bool) where
  pub first_where-true : (xs : List A) (a : A) → first_where p xs ≡ some a → p a ≡ true
  unfolding first_where
  first_where-true [] a h = cc
  first_where-true (x ∷ xs) a h = ground (arith, first_where-true xs a)

  -- An update that keeps the test of a query shows in its result.
  pub first_where-update_where :
      (q : A → Bool) (f : A → A) (xs : List A)
      → ((a : A) → p (f a) ≡ p a)
      → first_where p (update_where q f xs)
        ≡ map_option (λ a. if q a then f a else a) (first_where p xs)
  unfolding first_where update_where
  first_where-update_where q f [] k = refl
  first_where-update_where q f (x ∷ xs) k = elim (Bool-cases (q x)) [
    | inl hit ↦ elim (Bool-cases (p x)) [
      | inl e ↦ rw (hit, k x, e) (rw hit)
      | inr e ↦ rw (hit, k x, e) (first_where-update_where q f xs k)
    ]
    | inr miss ↦ elim (Bool-cases (p x)) [
      | inl e ↦ rw (miss, e) (rw miss)
      | inr e ↦ rw (miss, e) (first_where-update_where q f xs k)
    ]
  ]

  pub first_where-append :
      (xs : List A) (a : A)
      → exists_where p xs ≡ false
      → p a ≡ true
      → first_where p (xs ++ (a ∷ [])) ≡ some a
  unfolding first_where exists_where
  first_where-append [] a h e = rw e
  first_where-append (x ∷ xs) a h e = elim (Bool-cases (p x)) [
    | inl hit ↦ cc (rw hit at h)
    | inr miss ↦ rw miss (first_where-append xs a (rw miss at h) e)
  ]

  pub first_where-none : (xs : List A) → exists_where p xs ≡ false → first_where p xs ≡ none
  unfolding first_where exists_where
  first_where-none [] h = refl
  first_where-none (x ∷ xs) h = elim (Bool-cases (p x)) [
    | inl hit ↦ cc (rw hit at h)
    | inr miss ↦ rw miss (first_where-none xs (rw miss at h))
  ]

  pub exists-first_where :
      (xs : List A) (a : A) → first_where p xs ≡ some a → exists_where p xs ≡ true
  unfolding first_where exists_where
  exists-first_where [] a h = cc
  exists-first_where (x ∷ xs) a h = ground (arith, exists-first_where xs a)

  pub exists-append :
      (xs : List A) (a : A)
      → exists_where p (xs ++ (a ∷ [])) ≡ (if exists_where p xs then true else p a)
  unfolding exists_where
  exists-append [] a = ground arith
  exists-append (x ∷ xs) a = ground (arith, exists-append xs a)

  pub exists_where-none : (xs : List A) → first_where p xs ≡ none → exists_where p xs ≡ false
  unfolding first_where exists_where
  exists_where-none [] h = refl
  exists_where-none (x ∷ xs) h = ground (arith, exists_where-none xs)

  pub exists-delete_where : (xs : List A) → exists_where p (delete_where p xs) ≡ false
  unfolding exists_where delete_where
  exists-delete_where [] = refl
  exists-delete_where (x ∷ xs) = elim (Bool-cases (p x)) [
    | inl hit ↦ rw hit (exists-delete_where xs)
    | inr miss ↦ rw miss (rw miss (exists-delete_where xs))
  ]

  pub exists_where-weaken :
      (q : A → Bool) (xs : List A)
      → ((a : A) → q a ≡ true → p a ≡ true)
      → exists_where p xs ≡ false
      → exists_where q xs ≡ false
  unfolding exists_where
  exists_where-weaken q [] k h = refl
  exists_where-weaken q (x ∷ xs) k h = elim (Bool-cases (q x)) [
    | inl hit ↦ cc (rw (k x hit) at h)
    | inr miss ↦ rw miss (exists_where-weaken q xs k (ground arith))
  ]

  pub count_where-none : (xs : List A) → exists_where p xs ≡ false → count_where p xs ≡ 0
  unfolding exists_where count_where
  count_where-none [] h = refl
  count_where-none (x ∷ xs) h = ground (arith, count_where-none xs)

  pub count_where-append :
      (xs ys : List A) → count_where p (xs ++ ys) ≡ count_where p xs + count_where p ys
  unfolding count_where
  count_where-append [] ys = omega arith
  count_where-append (x ∷ xs) ys = omega (arith, count_where-append xs ys)
