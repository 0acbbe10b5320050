-- ===== src/Schema/Placeholders.antt =====
-- The placeholders of a query are numbered from one, in their order.
use wildman_service.Base.{
  ℕ, ◌+◌, ◌≡◌, refl, sym, ap, ◌∙◌, inl, inr, false, List, [], ◌∷◌, ◌++◌, Bool-cases, All, int_eq,
  string_eq, nat_eq, ◌==◌, list_eq, Text, any_code, append_nil,
}
use wildman_service.Schema.{itoa, rebind_from, rebind}

-- A query with a question mark between its pieces.
abbrev pub with_marks : Text → List Text → Text
with_marks p [] = p
with_marks p (q ∷ qs) = p ++ (b'?' ∷ with_marks q qs)

-- The same with $n, $(n + 1) and so on between them.
abbrev pub with_numbers : ℕ → Text → List Text → Text
with_numbers n p [] = p
with_numbers n p (q ∷ qs) = p ++ (b'$' ∷ (itoa n ++ with_numbers (n + 1) q qs))

abbrev pub HasNoMark : Text → Type 0
HasNoMark s = any_code (λ c. c == b'?') s ≡ false

rebind_from-append :
    (n : ℕ) (p s : Text) → HasNoMark p → rebind_from n (p ++ s) ≡ p ++ rebind_from n s
unfolding rebind_from any_code
rebind_from-append n [] s h = refl
rebind_from-append n (c ∷ p) s h = elim (Bool-cases (c == b'?')) [
  | inl mark ↦ cc (rw mark at h)
  | inr plain ↦ rw plain (ap (λ (t : Text). c ∷ t) (rebind_from-append n p s (rw plain at h)))
]

rebind_from-marks :
    (n : ℕ) (p : Text) (qs : List Text)
    → HasNoMark p
    → All HasNoMark qs
    → rebind_from n (with_marks p qs) ≡ with_numbers n p qs
unfolding rebind_from
rebind_from-marks n p [] h hs =
    ap (rebind_from n) (append_nil p) ∙ (rebind_from-append n p [] h ∙ sym (append_nil p))
rebind_from-marks n p (q ∷ qs) h hs =
    rebind_from-append n p (b'?' ∷ with_marks q qs) h
    ∙ ap (λ (t : Text). p ++ (b'$' ∷ (itoa n ++ t))) (rebind_from-marks (n + 1) q qs hs.0 hs.1)

unmarked : (n : ℕ) (p : Text) → HasNoMark p → rebind_from n p ≡ p
unmarked n p h = rebind_from-marks n p [] h tt

-- Between pieces without a question mark, the n-th question mark becomes $n, and nothing else changes.
pub rebind-marks :
    (p : Text) (qs : List Text)
    → HasNoMark p
    → All HasNoMark qs
    → rebind (with_marks p qs) ≡ with_numbers 1 p qs
unfolding rebind
rebind-marks p qs h hs = elim (Bool-cases (any_code (λ c. c == b'?') (with_marks p qs))) [
  | inl some_mark ↦ rw some_mark (rebind_from-marks 1 p qs h hs)
  | inr none_there ↦
      rw none_there (sym (unmarked 1 (with_marks p qs) none_there) ∙ rebind_from-marks 1 p qs h hs)
]
