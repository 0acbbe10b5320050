-- ===== src/Catalog/Arithmetic.antt =====
-- The operations of float64 that the scores use, as parameters: a literal or a quotient of two
-- integers is `ratio`. Scores are never NaN.
use wildman_service.Base.{
  ℕ, ◌+◌, ◌-◌, ◌*◌, ◌/◌, Bool, not, ltb, nat_beq, if◌then◌else◌, int_eq, nat_eq, string_eq, list_eq,
}

pub record Arithmetic (Num : Type 0) : Type 0 where
  pub lt : Num → Num → Bool
  pub eq : Num → Num → Bool
  pub add : Num → Num → Num
  pub sub : Num → Num → Num
  pub mul : Num → Num → Num
  pub ratio : ℕ → ℕ → Num

module _ {Num : Type 0} (num : Arithmetic Num) where
  -- math.Min, math.Max
  abbrev pub lesser : Num → Num → Num
  lesser a b = if num.lt b a then b else a

  abbrev pub greater : Num → Num → Num
  greater a b = if num.lt a b then b else a

  -- a >= b
  abbrev pub at_least : Num → Num → Bool
  at_least a b = not (num.lt a b)

-- Scores in thousandths, for tests.
abbrev pub thousandths : Arithmetic ℕ
thousandths = record {
  lt = ltb;
  eq = nat_beq;
  add = λ a b. a + b;
  sub = λ a b. a - b;
  mul = λ a b. a * b / 1000;
  ratio = λ a b. 1000 * a / b;
}
