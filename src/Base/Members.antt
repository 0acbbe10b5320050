-- ===== src/Base/Members.antt =====
-- What holds of each row of a table, and which rows a test finds.
use mathlib.Core.Path.{◌≡◌, refl}
use mathlib.Core.Bool.{Bool, true, false, ◌&&◌}
use mathlib.Core.List.{List, [], ◌∷◌, ◌++◌, map}
use mathlib.Core.Logic.{inl, inr}
use native.Mathlib.Omega.{arith}
use wildman_service.Base.Tests.{Bool-cases}
use wildman_service.Base.Lists.{All, exists_where, delete_where}

module _ {A : Type 0} where
  pub All-map : (P Q : A → Type 0) (xs : List A) → ((a : A) → P a → Q a) → All P xs → All Q xs
  All-map P Q [] f h = tt
  All-map P Q (x ∷ xs) f h = (f x h.0, All-map P Q xs f h.1)

  -- What is kept was there, and is not what was to be deleted.
  pub All-delete_where :
      (P : A → Type 0) (q : A → Bool) (xs : List A)
      → All P xs
      → All (λ a. P a × (q a ≡ false)) (delete_where q xs)
  unfolding delete_where
  All-delete_where P q [] h = tt
  All-delete_where P q (x ∷ xs) h = elim (Bool-cases (q x)) [
    | inl hit ↦ rw hit (All-delete_where P q xs h.1)
    | inr miss ↦ rw miss ((h.0, miss), All-delete_where P q xs h.1)
  ]

  -- A row that is not to be deleted is found after a deletion.
  pub exists_where-kept :
      (p q : A → Bool) (xs : List A)
      → exists_where p xs ≡ true
      → exists_where (λ a. p a && q a) xs ≡ false
      → exists_where p (delete_where q xs) ≡ true
  unfolding exists_where delete_where
  exists_where-kept p q [] h k = cc
  exists_where-kept p q (x ∷ xs) h k = elim (Bool-cases (q x)) [
    | inl hit ↦ rw hit (exists_where-kept p q xs (ground (arith, hit)) (ground (arith, hit)))
    | inr miss ↦ rw miss (ground (arith, exists_where-kept p q xs, miss))
  ]

  pub exists_where-nowhere :
      (p : A → Bool) (xs : List A) → ((a : A) → p a ≡ false) → exists_where p xs ≡ false
  unfolding exists_where
  exists_where-nowhere p [] h = refl
  exists_where-nowhere p (x ∷ xs) h = rw (h x) (exists_where-nowhere p xs h)

  abbrev pub Finds : List A → A → Type 0
  Finds xs a = (p : A → Bool) → p a ≡ true → exists_where p xs ≡ true

  All-Finds-cons : (x : A) (xs ys : List A) → All (Finds xs) ys → All (Finds (x ∷ xs)) ys
  unfolding exists_where
  All-Finds-cons x xs ys = All-map (Finds xs) (Finds (x ∷ xs)) ys (λ a f p h. ground (arith, f p h))

  -- A row of a table is found by each test that holds of it.
  pub All-Finds : (xs : List A) → All (Finds xs) xs
  unfolding exists_where
  All-Finds [] = tt
  All-Finds (x ∷ xs) = (λ p h. rw h refl, All-Finds-cons x xs xs (All-Finds xs))

  pub All-both : (P Q : A → Type 0) (xs : List A) → All P xs → All Q xs → All (λ a. P a × Q a) xs
  All-both P Q [] h k = tt
  All-both P Q (x ∷ xs) h k = ((h.0, k.0), All-both P Q xs h.1 k.1)

  pub All-right : (P : A → Type 0) (xs ys : List A) → All P (xs ++ ys) → All P ys
  All-right P [] ys h = h
  All-right P (x ∷ xs) ys h = All-right P xs ys h.1

pub exists_where-map :
    {A B : Type 0} (p : B → Bool) (f : A → B) (xs : List A)
    → exists_where p (map f xs) ≡ exists_where (λ a. p (f a)) xs
unfolding exists_where
exists_where-map p f [] = refl
exists_where-map p f (x ∷ xs) = rw (exists_where-map p f xs) refl
