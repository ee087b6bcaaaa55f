-- ===== src/Common/Text.antt =====
-- Go strings (valid UTF-8) as texts, and what package `strings` does with them: `TrimSpace` and
-- `ContainsAny` of the standard library, which the program calls everywhere.
use Prim.Native.Nat.{ℕ}
use Prim.Native.Char.{Char, code}
use Prim.Native.String.{String, [], ◌∷◌, ◌++◌ as concat}
use Prim.Native.String.append
use mathlib.Core.Path.{◌≡◌, refl, ap, ◌∙◌}
use mathlib.Core.Bool.{Bool, true, false, ◌&&◌, ◌||◌}
use mathlib.Core.Logic.{inl, inr, ◌≢◌}
use awp.Common.Tests.{leb, eqb, if◌then◌else◌, Bool-cases}

-- `unicode.IsSpace`
unfoldable pub is_space : ℕ → Bool
is_space c =
    (leb 9 c && leb c 13)
    || eqb c 32
    || eqb c 0x85
    || eqb c 0xa0
    || eqb c 0x1680
    || (leb 0x2000 c && leb c 0x200a)
    || eqb c 0x2028
    || eqb c 0x2029
    || eqb c 0x202f
    || eqb c 0x205f
    || eqb c 0x3000

unfoldable pub trim_left : String → String
trim_left [] = []
trim_left (c ∷ s) = if is_space (code c) then trim_left s else c ∷ s

-- A space goes only where nothing but spaces follows.
abbrev pub cons_trimmed : Char → String → String
cons_trimmed c [] = if is_space (code c) then [] else c ∷ []
cons_trimmed c (d ∷ t) = c ∷ d ∷ t

unfoldable pub trim_right : String → String
trim_right [] = []
trim_right (c ∷ s) = cons_trimmed c (trim_right s)

-- `strings.TrimSpace`
unfoldable pub trim_space : String → String
unfolding is_space trim_left trim_right
trim_space s = trim_right (trim_left s)

abbrev has_char : Char → String → Bool
has_char c [] = false
has_char c (d ∷ t) = eqb (code c) (code d) || has_char c t

-- `strings.ContainsAny`
unfoldable pub contains_any : String → String → Bool
contains_any [] chars = false
contains_any (c ∷ s) chars = has_char c chars || contains_any s chars

abbrev pub is_blank : String → Bool
is_blank [] = true
is_blank (c ∷ s) = false

trim_right-cons_trimmed :
    (c : Char) (s : String) → trim_right s ≡ s → trim_right (cons_trimmed c s) ≡ cons_trimmed c s
unfolding trim_right
trim_right-cons_trimmed c [] h = elim (Bool-cases (is_space (code c))) [
  | inl e ↦ rw e
  | inr e ↦ rw e (rw e)
]
trim_right-cons_trimmed c (d ∷ t) h = ap (cons_trimmed c) h

trim_right_idem : (s : String) → trim_right (trim_right s) ≡ trim_right s
unfolding trim_right
trim_right_idem [] = refl
trim_right_idem (c ∷ s) = trim_right-cons_trimmed c (trim_right s) (trim_right_idem s)

-- What begins with no space keeps its first character.
trim_left-cons_trimmed :
    (c : Char) (s : String)
    → is_space (code c) ≡ false
    → trim_left (cons_trimmed c s) ≡ cons_trimmed c s
unfolding trim_left
trim_left-cons_trimmed c [] h = rw h (rw h)
trim_left-cons_trimmed c (d ∷ t) h = rw h

trim_left-trim_right_left :
    (s : String) → trim_left (trim_right (trim_left s)) ≡ trim_right (trim_left s)
unfolding trim_left trim_right
trim_left-trim_right_left [] = refl
trim_left-trim_right_left (c ∷ s) = elim (Bool-cases (is_space (code c))) [
  | inl e ↦ rw e (trim_left-trim_right_left s)
  | inr e ↦ rw e (trim_left-cons_trimmed c (trim_right s) e)
]

-- Trimming twice is trimming once.
pub trim_space_idem : (s : String) → trim_space (trim_space s) ≡ trim_space s
unfolding trim_space
trim_space_idem s = ap trim_right (trim_left-trim_right_left s) ∙ trim_right_idem (trim_left s)

trim_example : trim_space " \ta b\n " ≡ "a b"
unfolding trim_space
trim_example = refl

contains_any_example : contains_any "a\nb" "\r\n" ≡ true
unfolding contains_any
contains_any_example = refl

-- A loop over the characters that stops at the first that fails a test.
unfoldable pub all_chars : (Char → Bool) → String → Bool
all_chars p [] = true
all_chars p (c ∷ s) = p c && all_chars p s

-- A text with a line break behind it, as a file of one line has it.
abbrev IsPlain : String → Type 0
IsPlain [] = Unit
IsPlain (c ∷ s) = is_space (code c) ≡ false

trim_left-IsPlain : (s : String) → IsPlain (trim_left s)
unfolding trim_left
trim_left-IsPlain [] = tt
trim_left-IsPlain (c ∷ s) = elim (Bool-cases (is_space (code c))) [
  | inl e ↦ rw e (trim_left-IsPlain s)
  | inr e ↦ rw e e
]

cons_trimmed-IsPlain :
    (c : Char) (s : String) → is_space (code c) ≡ false → IsPlain (cons_trimmed c s)
cons_trimmed-IsPlain c [] h = rw h h
cons_trimmed-IsPlain c (d ∷ t) h = h

trim_right-IsPlain : (s : String) → IsPlain s → IsPlain (trim_right s)
unfolding trim_right
trim_right-IsPlain [] h = tt
trim_right-IsPlain (c ∷ s) h = cons_trimmed-IsPlain c (trim_right s) h

trim_left-IsPlain_append :
    (s : String) → s ≢ "" → IsPlain s → trim_left (concat s "\n") ≡ concat s "\n"
unfolding trim_left
trim_left-IsPlain_append [] n h = absurd (n refl)
trim_left-IsPlain_append (c ∷ s) n h = rw (append.cons c s "\n") (rw h)

trim_right-append : (s : String) → trim_right (concat s "\n") ≡ trim_right s
unfolding trim_right is_space
trim_right-append [] = refl
trim_right-append (c ∷ s) = rw (append.cons c s "\n") (ap (cons_trimmed c) (trim_right-append s))

-- A trimmed text that is not blank is what trimming finds of it with a line break behind it.
pub trim_space-line :
    (t : String) → trim_space t ≢ "" → trim_space (concat (trim_space t) "\n") ≡ trim_space t
unfolding trim_space
trim_space-line t n =
    let u = trim_right (trim_left t) in
    let plain = trim_right-IsPlain (trim_left t) (trim_left-IsPlain t) in
    ap trim_right (trim_left-IsPlain_append u n plain)
    ∙ trim_right-append u
    ∙ trim_right_idem (trim_left t)
