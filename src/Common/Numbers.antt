-- ===== src/Common/Numbers.antt =====
-- Numbers as texts: `strconv.Atoi` and the verb %d of package `fmt`. An `int` is 64 bits wide; it is
-- kept as the native number that is 2^63 greater, which has the same order.
use Prim.Native.Nat.{ℕ, zero, suc, ◌+◌, ◌-◌, ◌*◌, ◌/◌, ◌%◌, ◌^◌, ◌<◌, ◌≤◌}
use Prim.Native.Char.{Char, code}
use Prim.Native.String.{String, [], ◌∷◌}
use mathlib.Core.Path.{◌≡◌, refl, ap, ◌∙◌}
use mathlib.Core.Logic.{inl, inr}
use mathlib.Core.Bool.{true, false, ◌&&◌}
use mathlib.Core.Option.{Option, none, some}
use native.Mathlib.Omega.{arith}
use awp.Common.Tests.{ltb, leb, eqb, if◌then◌else◌, Bool-cases}
use awp.Common.Text.{is_space, trim_left, trim_right, cons_trimmed, trim_space}

abbrev pub bias : ℕ
bias = 2 ^ 63

-- The value of a text of digits, behind the digits whose value is `n`.
unfoldable pub digits : ℕ → String → Option ℕ
digits n [] = some n
digits n (c ∷ s) =
    let rest = digits (n * 10 + (code c - 48)) s in
    if leb 48 (code c) && leb (code c) 57 then rest else none

abbrev pub non_empty_digits : String → Option ℕ
non_empty_digits [] = none
non_empty_digits (c ∷ s) = digits 0 (c ∷ s)

abbrev pub positive : Option ℕ → Option ℕ
positive none = none
positive (some n) = if ltb n bias then some (bias + n) else none

abbrev pub negative : Option ℕ → Option ℕ
negative none = none
negative (some n) = if leb n bias then some (bias - n) else none

-- `strconv.Atoi`: none where it returns an error
unfoldable pub atoi : String → Option ℕ
atoi [] = none
atoi (c ∷ s) =
    if eqb (code c) 45
    then negative (non_empty_digits s)
    else if eqb (code c) 43
    then positive (non_empty_digits s)
    else positive (digits 0 (c ∷ s))

abbrev pub digit : ℕ → Char
digit zero = "0"
digit (suc zero) = "1"
digit (suc (suc zero)) = "2"
digit (suc (suc (suc zero))) = "3"
digit (suc (suc (suc (suc zero)))) = "4"
digit (suc (suc (suc (suc (suc zero))))) = "5"
digit (suc (suc (suc (suc (suc (suc zero)))))) = "6"
digit (suc (suc (suc (suc (suc (suc (suc zero))))))) = "7"
digit (suc (suc (suc (suc (suc (suc (suc (suc zero)))))))) = "8"
digit (suc (suc (suc (suc (suc (suc (suc (suc (suc n))))))))) = "9"

code-digit : (n : ℕ) → n < 10 → code (digit n) ≡ 48 + n
code-digit zero h = refl
code-digit (suc zero) h = refl
code-digit (suc (suc zero)) h = refl
code-digit (suc (suc (suc zero))) h = refl
code-digit (suc (suc (suc (suc zero)))) h = refl
code-digit (suc (suc (suc (suc (suc zero))))) h = refl
code-digit (suc (suc (suc (suc (suc (suc zero)))))) h = refl
code-digit (suc (suc (suc (suc (suc (suc (suc zero))))))) h = refl
code-digit (suc (suc (suc (suc (suc (suc (suc (suc zero)))))))) h = refl
code-digit (suc (suc (suc (suc (suc (suc (suc (suc (suc n))))))))) h = omega arith

-- The digits of `n` in front of a text; fuel above `n` is enough.
unfoldable pub decimal : ℕ → ℕ → String → String
decimal zero n s = s
decimal (suc f) n s =
    let rest = decimal f (n / 10) (digit (n % 10) ∷ s) in if ltb n 10 then digit n ∷ s else rest

is_digit_of : (k n : ℕ) → k ≡ 48 + n → n < 10 → (leb 48 k && leb k 57) ≡ true
is_digit_of k n e h = ground arith

digits-digit : (m n : ℕ) (s : String) → n < 10 → digits m (digit n ∷ s) ≡ digits (m * 10 + n) s
unfolding digits
digits-digit m n s h =
    let e = code-digit n h in
    let value : code (digit n) - 48 ≡ n = omega (arith, e) in
    rw (is_digit_of (code (digit n)) n e h, value)

digits-decimal : (f n : ℕ) (s : String) → n < f → digits 0 (decimal f n s) ≡ digits n s
unfolding decimal
digits-decimal zero n s h = absurd (omega arith)
digits-decimal (suc f) n s h = elim (Bool-cases (ltb n 10)) [
  | inl e ↦ rw e (digits-digit 0 n s (ground arith) ∙ ap (λ k. digits k s) (omega arith))
  | inr e ↦ rw e (
      digits-decimal f (n / 10) (digit (n % 10) ∷ s) (ground arith)
      ∙ digits-digit (n / 10) (n % 10) s (omega arith)
      ∙ ap (λ k. digits k s) (omega arith))
]

-- The decimal digits read back.
pub Starts : String → Type 0
Starts [] = ⊥
Starts (c ∷ s) = (48 ≤ code c) × (code c ≤ 57)

decimal-Starts : (f n : ℕ) (s : String) → n < f → Starts (decimal f n s)
unfolding decimal Starts
decimal-Starts zero n s h = absurd (omega arith)
decimal-Starts (suc f) n s h = elim (Bool-cases (ltb n 10)) [
  | inl e ↦ rw e (let c = code-digit n (ground arith) in (omega (arith, c), ground (arith, c)))
  | inr e ↦ rw e (decimal-Starts f (n / 10) (digit (n % 10) ∷ s) (ground arith))
]

atoi-Starts : (s : String) → Starts s → atoi s ≡ positive (digits 0 s)
unfolding atoi Starts
atoi-Starts [] h = absurd h
atoi-Starts (c ∷ s) h =
    let minus : eqb (code c) 45 ≡ false = ground arith in
    let plus : eqb (code c) 43 ≡ false = ground arith in rw (minus, plus)

is_space-digit : (k : ℕ) → 48 ≤ k → k ≤ 57 → is_space k ≡ false
unfolding is_space
is_space-digit k h h' = ground arith

trim_left-Starts : (s : String) → Starts s → trim_left s ≡ s
unfolding trim_left Starts
trim_left-Starts [] h = refl
trim_left-Starts (c ∷ s) h = rw (is_space-digit (code c) h.0 h.1)

trim_right-digit :
    (c : Char) (s : String) → is_space (code c) ≡ false → trim_right (c ∷ s) ≡ c ∷ trim_right s
unfolding trim_right
trim_right-digit c s h = keeps c (trim_right s) h
  where
    keeps : (c : Char) (t : String) → is_space (code c) ≡ false → cons_trimmed c t ≡ c ∷ t
    keeps c [] h = rw h
    keeps c (d ∷ t) h = refl

trim_right-decimal :
    (f n : ℕ) (s : String) → n < f → trim_right (decimal f n s) ≡ decimal f n (trim_right s)
unfolding decimal
trim_right-decimal zero n s h = absurd (omega arith)
trim_right-decimal (suc f) n s h = elim (Bool-cases (ltb n 10)) [
  | inl e ↦ rw e (trim_right-digit (digit n) s (no_space n (ground arith)))
  | inr e ↦ rw e (
      trim_right-decimal f (n / 10) (digit (n % 10) ∷ s) (ground arith)
      ∙ ap (decimal f (n / 10))
          (trim_right-digit (digit (n % 10)) s (no_space (n % 10) (omega arith))))
]
  where
    no_space : (m : ℕ) → m < 10 → is_space (code (digit m)) ≡ false
    no_space m h =
        let e = code-digit m h in
        is_space-digit (code (digit m)) (omega (arith, e)) (omega (arith, e))

-- `Atoi(TrimSpace(Sprintf("%d\n", n)))`
pub atoi-trim_space-decimal :
    (n : ℕ) → n < bias → atoi (trim_space (decimal (suc n) n "\n")) ≡ some (bias + n)
unfolding trim_space trim_right is_space
atoi-trim_space-decimal n h =
    let text = decimal (suc n) n "\n" in
    let starts = decimal-Starts (suc n) n "\n" (omega arith) in
    let whole = decimal (suc n) n "" in
    let trimmed : trim_space text ≡ whole =
      ap trim_right (trim_left-Starts text starts)
      ∙ trim_right-decimal (suc n) n "\n" (omega arith) in
    ap atoi trimmed
    ∙ atoi-Starts whole (decimal-Starts (suc n) n "" (omega arith))
    ∙ ap positive (digits-decimal (suc n) n "" (omega arith))
    ∙ unfold digits in (ground arith)
