-- ===== src/Base/Rows.antt =====
-- Statements over a table that the stores share: a selection, an upsert and an order.
use mathlib.Core.Path.{◌≡◌, refl, ap, ◌∙◌}
use mathlib.Core.Bool.{Bool, true, false}
use mathlib.Core.List.{List, [], ◌∷◌, ◌++◌}
use mathlib.Core.Option.{Option, none, some}
use mathlib.Core.Logic.{inl, inr}
use native.Mathlib.Omega.{arith}
use wildman_service.Base.Tests.{if◌then◌else◌, Bool-cases, Option-cases}
use wildman_service.Base.Lists.{
  first_where, exists_where, update_where, delete_where, count_where, exists_where-none,
  exists-first_where, first_where-append, first_where-update_where, first_where-true,
}

module _ {ℓ} {A : Type ℓ} where
  -- `SELECT ... WHERE`
  unfoldable pub select_where : (A → Bool) → List A → List A
  select_where p [] = []
  select_where p (x ∷ xs) = let rest = select_where p xs in if p x then x ∷ rest else rest

  -- `INSERT ... ON CONFLICT DO UPDATE SET ...`: the row that conflicts is changed.
  unfoldable pub upsert_where : (A → Bool) → (A → A) → A → List A → List A
  upsert_where p f new xs = if exists_where p xs then update_where p f xs else xs ++ (new ∷ [])

  unfoldable pub insert_ordered : (A → A → Bool) → A → List A → List A
  insert_ordered after a [] = a ∷ []
  insert_ordered after a (x ∷ xs) =
      let rest = insert_ordered after a xs in if after a x then x ∷ rest else a ∷ x ∷ xs

  -- `ORDER BY`: `after a b` where a goes after b.
  unfoldable pub order_by : (A → A → Bool) → List A → List A
  order_by after [] = []
  order_by after (x ∷ xs) = insert_ordered after x (order_by after xs)

  pub count-insert_ordered :
      (after : A → A → Bool) (p : A → Bool) (a : A) (xs : List A)
      → count_where p (insert_ordered after a xs) ≡ count_where p (a ∷ xs)
  unfolding insert_ordered count_where
  count-insert_ordered after p a [] = refl
  count-insert_ordered after p a (x ∷ xs) = ground (arith, count-insert_ordered after p a xs)

  pub count-order_by :
      (after : A → A → Bool) (p : A → Bool) (xs : List A)
      → count_where p (order_by after xs) ≡ count_where p xs
  unfolding order_by count_where
  count-order_by after p [] = refl
  count-order_by after p (x ∷ xs) =
      count-insert_ordered after p x (order_by after xs) ∙ ground (arith, count-order_by after p xs)

  -- No row goes after the next one.
  abbrev pub IsInOrder : (A → A → Bool) → List A → Type ℓ
  IsInOrder after [] = Unit
  IsInOrder after (x ∷ []) = Unit
  IsInOrder after (x ∷ y ∷ ys) = (after x y ≡ false) × IsInOrder after (y ∷ ys)

  -- Rows that are in order stay as they are.
  pub order_by-IsInOrder :
      (after : A → A → Bool) (xs : List A) → IsInOrder after xs → order_by after xs ≡ xs
  unfolding order_by insert_ordered
  order_by-IsInOrder after [] s = refl
  order_by-IsInOrder after (x ∷ []) s = refl
  order_by-IsInOrder after (x ∷ y ∷ ys) s = rw (order_by-IsInOrder after (y ∷ ys) s.1) (rw s.0 refl)

  pub append_assoc : (xs : List A) (y : A) (zs : List A) → (xs ++ (y ∷ [])) ++ zs ≡ xs ++ (y ∷ zs)
  append_assoc [] y zs = refl
  append_assoc (x ∷ xs) y zs = ap (λ t. x ∷ t) (append_assoc xs y zs)

  pub append_append : (xs ys zs : List A) → (xs ++ ys) ++ zs ≡ xs ++ (ys ++ zs)
  append_append [] ys zs = refl
  append_append (x ∷ xs) ys zs = ap (λ t. x ∷ t) (append_append xs ys zs)

  pub append_nil : (xs : List A) → xs ≡ xs ++ []
  append_nil [] = refl
  append_nil (x ∷ xs) = ap (λ t. x ∷ t) (append_nil xs)

  pub select_where-append :
      (p : A → Bool) (xs ys : List A)
      → select_where p (xs ++ ys) ≡ select_where p xs ++ select_where p ys
  unfolding select_where
  select_where-append p [] ys = refl
  select_where-append p (x ∷ xs) ys = ground (arith, select_where-append p xs ys)

  -- A selection does not see the rows that another test deletes.
  pub select_where-delete_where :
      (p q : A → Bool) (xs : List A)
      → ((a : A) → p a ≡ true → q a ≡ false)
      → select_where p (delete_where q xs) ≡ select_where p xs
  unfolding select_where delete_where
  select_where-delete_where p q [] k = refl
  select_where-delete_where p q (x ∷ xs) k = elim (Bool-cases (q x)) [
    | inl hit ↦ elim (Bool-cases (p x)) [
      | inl e ↦ cc (k x e, hit)
      | inr e ↦ rw (hit, e) (select_where-delete_where p q xs k)
    ]
    | inr miss ↦ elim (Bool-cases (p x)) [
      | inl e ↦ rw (miss, e) (ap (λ (t : List A). x ∷ t) (select_where-delete_where p q xs k))
      | inr e ↦ rw (miss, e) (select_where-delete_where p q xs k)
    ]
  ]

  -- Rows that are deleted are not selected.
  pub select-delete_where :
      (p q : A → Bool) (xs : List A)
      → ((a : A) → p a ≡ true → q a ≡ true)
      → select_where p (delete_where q xs) ≡ []
  unfolding select_where delete_where
  select-delete_where p q [] k = refl
  select-delete_where p q (x ∷ xs) k = elim (Bool-cases (q x)) [
    | inl hit ↦ rw hit (select-delete_where p q xs k)
    | inr miss ↦ elim (Bool-cases (p x)) [
      | inl e ↦ cc (k x e, miss)
      | inr e ↦ rw miss (rw e (select-delete_where p q xs k))
    ]
  ]

module _ {ℓ} {A : Type ℓ} (f : A → A) (new : A) where
  -- What an upsert leaves in the place of the row that it found.
  abbrev pub upserted : Option A → A
  upserted none = new
  upserted (some a) = f a

  pub first_where-upsert :
      (p : A → Bool) (xs : List A)
      → p new ≡ true
      → ((a : A) → p (f a) ≡ p a)
      → first_where p (upsert_where p f new xs) ≡ some (upserted (first_where p xs))
  unfolding upsert_where
  first_where-upsert p xs e k = elim (Option-cases (first_where p xs)) [
    | inl absent ↦
        let missed = exists_where-none p xs absent in
        rw (missed, absent) (first_where-append p xs new missed e)
    | inr (a, found) ↦
        rw
          (
            exists-first_where p xs a found,
            first_where-update_where p p f xs k,
            found,
            first_where-true p xs a found,
          )
          refl
  ]

  first_where-append_other :
      (q : A → Bool) (xs : List A)
      → q new ≡ false
      → first_where q (xs ++ (new ∷ [])) ≡ first_where q xs
  unfolding first_where
  first_where-append_other q [] e = rw e refl
  first_where-append_other q (x ∷ xs) e = ground (arith, first_where-append_other q xs e)

  -- An upsert does not show in a query that selects other rows.
  pub first_where-upsert_other :
      (p q : A → Bool) (xs : List A)
      → q new ≡ false
      → ((a : A) → q (f a) ≡ q a)
      → ((a : A) → q a ≡ true → p a ≡ false)
      → first_where q (upsert_where p f new xs) ≡ first_where q xs
  unfolding upsert_where
  first_where-upsert_other p q xs e k apart = elim (Bool-cases (exists_where p xs)) [
    | inr missed ↦ rw missed (first_where-append_other q xs e)
    | inl hit ↦
        rw (hit, first_where-update_where q p f xs k)
          (elim (Option-cases (first_where q xs)) [
            | inl absent ↦ rw absent refl
            | inr (a, found) ↦ rw (found, apart a (first_where-true q xs a found)) refl
          ])
  ]
