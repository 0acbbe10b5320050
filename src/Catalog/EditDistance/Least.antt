-- ===== src/Catalog/EditDistance/Least.antt =====
-- The distance is the least number of edits.
use mathlib.Core.List.{reverse_aux}
use wildman_service.Base.{
  ℕ, suc, ◌+◌, ◌≤◌, min, ◌≡◌, refl, sym, ap, subst, ◌∙◌, ◌⊎◌, inl, inr, List, [], ◌∷◌, reverse,
  arith, if◌then◌else◌, nat_beq_iff, Bool-cases, length, int_eq, ◌==◌, nat_eq, string_eq, list_eq,
}
use wildman_service.Catalog.EditDistance.{
  next_cells, next_row, last_row, first_row, cell_at, edit_distance,
}

-- A script that makes the second text of the first, with the number of its insertions, deletions and
-- replacements.
pub data Edits : List ℕ → List ℕ → ℕ → Type 0 where
  done : Edits [] [] 0
  keep : {a b : List ℕ} {n : ℕ} (x : ℕ) → Edits a b n → Edits (x ∷ a) (x ∷ b) n
  replace : {a b : List ℕ} {n : ℕ} (x y : ℕ) → Edits a b n → Edits (x ∷ a) (y ∷ b) (n + 1)
  delete : {a b : List ℕ} {n : ℕ} (x : ℕ) → Edits a b n → Edits (x ∷ a) b (n + 1)
  insert : {a b : List ℕ} {n : ℕ} (y : ℕ) → Edits a b n → Edits a (y ∷ b) (n + 1)

-- The recursive definition of the distance.
least : List ℕ → List ℕ → ℕ
least [] b = length b
least (x ∷ a) [] = suc (length a)
least (x ∷ a) (y ∷ b) =
    min (min (least (x ∷ a) b + 1) (least a (y ∷ b) + 1)) (least a b + (if x == y then 0 else 1))

abbrev cells : List ℕ → List ℕ → List ℕ → List ℕ
cells u v [] = []
cells u v (r ∷ rs) = least u (r ∷ v) ∷ cells u (r ∷ v) rs

next_cells-least :
    (l : ℕ) (u v rs : List ℕ)
    → next_cells l (least (l ∷ u) v) (least u v) rs (cells u v rs) ≡ cells (l ∷ u) v rs
unfolding next_cells least
next_cells-least l u v [] = refl
next_cells-least l u v (r ∷ rs) =
    ap (λ t. least (l ∷ u) (r ∷ v) ∷ t) (next_cells-least l u (r ∷ v) rs)

least-nil : (u : List ℕ) → least u [] ≡ length u
unfolding least
least-nil [] = refl
least-nil (x ∷ u) = refl

last_row-least :
    (left u right : List ℕ)
    → last_row (length u) left right (length u ∷ cells u [] right)
      ≡ (length (reverse_aux left u) ∷ cells (reverse_aux left u) [] right)
unfolding last_row next_row least
last_row-least [] u right = refl
last_row-least (l ∷ left) u right =
    ap (λ t. last_row (suc (length u)) left right (suc (length u) ∷ t))
      (subst
        (λ d. next_cells l (suc (length u)) d right (cells u [] right) ≡ cells (l ∷ u) [] right)
        (least-nil u) (next_cells-least l u [] right))
    ∙ last_row-least left (l ∷ u) right

first_row-least : (v rs : List ℕ) → first_row (length v) rs ≡ (length v ∷ cells [] v rs)
unfolding first_row least
first_row-least v [] = refl
first_row-least v (r ∷ rs) = ap (λ t. length v ∷ t) (first_row-least (r ∷ v) rs)

cell_at-least :
    (c : ℕ) (u v rs : List ℕ)
    → c ≡ least u v
    → cell_at (length rs) (c ∷ cells u v rs) ≡ least u (reverse_aux rs v)
unfolding cell_at
cell_at-least c u v [] h = h
cell_at-least c u v (r ∷ rs) h = cell_at-least (least u (r ∷ v)) u (r ∷ v) rs refl

edit_distance-least :
    (left right : List ℕ) → edit_distance left right ≡ least (reverse left) (reverse right)
unfolding edit_distance
edit_distance-least left right =
    ap (λ row. cell_at (length right) (last_row 0 left right row)) (first_row-least [] right)
    ∙ ap (cell_at (length right)) (last_row-least left [] right)
    ∙ cell_at-least (length (reverse left)) (reverse left) [] right (sym (least-nil (reverse left)))

insertions : (b : List ℕ) → Edits [] b (length b)
insertions [] = done
insertions (y ∷ b) = subst (Edits [] (y ∷ b)) (omega arith) (insert y (insertions b))

deletions : (a : List ℕ) → Edits a [] (length a)
deletions [] = done
deletions (x ∷ a) = subst (Edits (x ∷ a) []) (omega arith) (delete x (deletions a))

min-cases : (a b c : ℕ) → (min (min a b) c ≡ a) ⊎ ((min (min a b) c ≡ b) ⊎ (min (min a b) c ≡ c))
min-cases a b c = ground arith

-- The shortest of the three scripts that end with an edit.
shortest :
    (x y : ℕ) (a b : List ℕ)
    → Edits (x ∷ a) b (least (x ∷ a) b)
    → Edits a (y ∷ b) (least a (y ∷ b))
    → Edits a b (least a b)
    → Edits (x ∷ a) (y ∷ b) (least (x ∷ a) (y ∷ b))
unfolding least
shortest x y a b left up corner =
    elim (min-cases (least (x ∷ a) b + 1) (least a (y ∷ b) + 1)
      (least a b + (if x == y then 0 else 1))) [
        | inl h ↦ subst (Edits (x ∷ a) (y ∷ b)) (sym h) (insert y left)
        | inr (inl h) ↦ subst (Edits (x ∷ a) (y ∷ b)) (sym h) (delete x up)
        | inr (inr h) ↦ elim (Bool-cases (x == y)) [
          | inl same ↦ subst (Edits (x ∷ a) (y ∷ b)) (sym (h ∙ ground (arith, same))) (
              subst (λ z. Edits (x ∷ a) (z ∷ b) (least a b)) ((nat_beq_iff x y).0 same)
                (keep x corner))
          | inr other ↦
              subst (Edits (x ∷ a) (y ∷ b)) (sym (h ∙ ground (arith, other))) (replace x y corner)
        ]
      ]

script : (a b : List ℕ) → Edits a b (least a b)
unfolding least
script [] b = insertions b
script (x ∷ a) [] = deletions (x ∷ a)
script (x ∷ a) (y ∷ b) = shortest x y a b (script (x ∷ a) b) (script a (y ∷ b)) (script a b)

least-grow :
    (a b : List ℕ) (x : ℕ) → (least (x ∷ a) b ≤ least a b + 1) × (least b (x ∷ a) ≤ least b a + 1)
unfolding least
least-grow a [] x = (ground (arith, least-nil a), omega arith)
least-grow a (y ∷ b) x = (ground arith, ground arith)

least-le : (a b : List ℕ) (n : ℕ) → Edits a b n → least a b ≤ n
unfolding least
least-le _ _ _ done = omega arith
least-le _ _ _ (keep {a} {b} {n} x e) = ground (arith, least-le a b n e)
least-le _ _ _ (replace {a} {b} {n} x y e) = ground (arith, least-le a b n e)
least-le _ _ _ (delete {a} {b} {n} x e) = ground (arith, least-le a b n e, (least-grow a b x).0)
least-le _ _ _ (insert {a} {b} {n} y e) = ground (arith, least-le a b n e, (least-grow b a y).1)

-- The number that is computed for two texts is the number of edits of a script that makes the second of
-- the first, read from their ends, and no script has fewer.
pub edit_distance-Edits :
    (left right : List ℕ)
    → Edits (reverse left) (reverse right) (edit_distance left right)
      × ((n : ℕ) → Edits (reverse left) (reverse right) n → edit_distance left right ≤ n)
edit_distance-Edits left right =
    let e = edit_distance-least left right in
    (
      subst (Edits (reverse left) (reverse right)) (sym e) (script (reverse left) (reverse right)),
      λ n s. subst (λ d. d ≤ n) (sym e) (least-le (reverse left) (reverse right) n s),
    )
