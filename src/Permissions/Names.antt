-- ===== src/Permissions/Names.antt =====
-- internal/permissions/store.go: `contains` and `uniqueSorted`.
pub mod Idempotent
use awp.Common.{
  String, Bool, true, false, List, [], ◌∷◌, ◌++◌, ◌≡◌, ◌≢◌, ◌⊎◌, inl, inr, refl, ap, arith, eq_iff,
  eq_refl, subst, sym, ◌∙◌, map, foldl, All, All-append, All-mono, All_of, ◌==◌, ◌&&◌, ◌||◌, not,
  if◌then◌else◌, Bool-cases,
}
use awp.Common.Text.{trim_space, trim_space_idem}
use awp.Common.Order.{text_lt, text_lt_irrefl, text_lt_trans, text_lt_total}
use awp.Common.Sort.{IsDistinct, IsAscending, sort_by, All-sort_by, insert_by, sort_by-IsAscending}

-- `contains`
unfoldable pub contains : List String → String → Bool
contains [] target = false
contains (x ∷ xs) target = x == target || contains xs target

-- One round of the loop of `uniqueSorted`, on what was seen and what is kept.
abbrev pub unique_step : List String → String → List String
unique_step result value =
    let v = trim_space value in
    if not (v == "") && not (contains result v) then result ++ v ∷ [] else result

-- `uniqueSorted`; the set `seen` has the elements of the result.
unfoldable pub unique_sorted : List String → List String
unique_sorted values = sort_by text_lt (foldl unique_step [] values)

pub contains-false : (xs : List String) (t : String) → contains xs t ≡ false → All (λ x. x ≢ t) xs
unfolding contains
contains-false [] t h = tt
contains-false (x ∷ xs) t h = ground (arith, eq_iff x t, contains-false xs t)

pub contains_of_All :
    (P : String → Type 0) (xs : List String) (t : String) → All P xs → contains xs t ≡ true → P t
unfolding contains
contains_of_All P [] t h k = cc
contains_of_All P (x ∷ xs) t h k = elim (Bool-cases (x == t)) [
  | inl e ↦ subst P ((eq_iff x t).0 e) h.0
  | inr e ↦ contains_of_All P xs t h.1 (ground arith)
]

abbrev pub IsTrimmed : String → Type 0
IsTrimmed v = trim_space v ≡ v

IsDistinct-append :
    (xs : List String) (v : String)
    → IsDistinct xs
    → All (λ x. x ≢ v) xs
    → IsDistinct (xs ++ v ∷ [])
IsDistinct-append [] v d h = (tt, tt)
IsDistinct-append (x ∷ xs) v d h =
    (All-append (λ y. x ≢ y) xs (v ∷ []) d.0 (h.0, tt), IsDistinct-append xs v d.1 h.1)

unique_step-IsDistinct :
    (r : List String) (v : String) → IsDistinct r → IsDistinct (unique_step r v)
unique_step-IsDistinct r value d =
    let v = trim_space value in
    elim (Bool-cases (not (v == "") && not (contains r v))) [
      | inl e ↦ rw e (IsDistinct-append r v d (contains-false r v (ground arith)))
      | inr e ↦ rw e d
    ]

unique-IsDistinct :
    (values r : List String) → IsDistinct r → IsDistinct (foldl unique_step r values)
unique-IsDistinct [] r d = d
unique-IsDistinct (v ∷ vs) r d =
    unique-IsDistinct vs (unique_step r v) (unique_step-IsDistinct r v d)

-- The result is strictly ascending, so that no text is there twice.
pub unique_sorted-IsAscending : (values : List String) → IsAscending text_lt (unique_sorted values)
unfolding unique_sorted
unique_sorted-IsAscending values =
    sort_by-IsAscending text_lt text_lt_trans text_lt_total (foldl unique_step [] values)
      (unique-IsDistinct values [] tt)

-- Each value kept is a trimmed input, and not blank.
abbrev pub Comes {ℓ} : (String → Type ℓ) → String → Type ℓ
Comes P v = (v ≢ "") × ((x : String) × (trim_space x ≡ v) × P x)

unique_step-Comes {ℓ} :
    (P : String → Type ℓ) (r : List String) (value : String)
    → P value
    → All (Comes P) r
    → All (Comes P) (unique_step r value)
unique_step-Comes P r value h a =
    let v = trim_space value in
    elim (Bool-cases (not (v == "") && not (contains r v))) [
      | inl e ↦
          rw e (
            All-append (Comes P) r (v ∷ []) a ((ground (arith, eq_iff v ""), (value, refl, h)), tt))
      | inr e ↦ rw e a
    ]

unique-Comes {ℓ} :
    (P : String → Type ℓ) (values r : List String)
    → All P values
    → All (Comes P) r
    → All (Comes P) (foldl unique_step r values)
unique-Comes P [] r h a = a
unique-Comes P (v ∷ vs) r h a =
    unique-Comes P vs (unique_step r v) h.1 (unique_step-Comes P r v h.0 a)

pub All-unique_sorted {ℓ} :
    (P : String → Type ℓ) (values : List String)
    → All P values
    → All (Comes P) (unique_sorted values)
unfolding unique_sorted
All-unique_sorted P values h =
    All-sort_by text_lt (Comes P) (foldl unique_step [] values) (unique-Comes P values [] h tt)

contains-append :
    (xs ys : List String) (t : String) → contains (xs ++ ys) t ≡ (contains xs t || contains ys t)
unfolding contains
contains-append [] ys t = refl
contains-append (x ∷ xs) ys t = ground (arith, contains-append xs ys t)

contains-insert_by :
    (x : String) (ys : List String) (t : String)
    → contains (insert_by text_lt x ys) t ≡ (x == t || contains ys t)
unfolding contains insert_by
contains-insert_by x [] t = refl
contains-insert_by x (y ∷ ys) t = elim (Bool-cases (text_lt y x)) [
  | inl e ↦ rw e (ground (arith, contains-insert_by x ys t))
  | inr e ↦ rw e
]

contains-sort_by : (xs : List String) (t : String) → contains (sort_by text_lt xs) t ≡ contains xs t
unfolding contains sort_by
contains-sort_by [] t = refl
contains-sort_by (x ∷ xs) t =
    contains-insert_by x (sort_by text_lt xs) t ∙ ap (λ b. x == t || b) (contains-sort_by xs t)

contains-append_one :
    (xs : List String) (v t : String) → contains (xs ++ v ∷ []) t ≡ (contains xs t || v == t)
unfolding contains
contains-append_one xs v t = rw contains-append (ground arith)

contains-unique_step :
    (r : List String) (value t : String)
    → contains (unique_step r value) t ≡ (contains r t || (not (t == "") && trim_space value == t))
contains-unique_step r value t =
    let v = trim_space value in
    ground (arith, contains-append_one r v t, eq_iff v "", eq_iff t "", eq_iff v t)

contains-foldl-unique_step :
    (values r : List String) (t : String)
    → contains (foldl unique_step r values) t
      ≡ (contains r t || (not (t == "") && contains (map trim_space values) t))
unfolding contains
contains-foldl-unique_step [] r t = ground arith
contains-foldl-unique_step (v ∷ vs) r t =
    ground (arith, contains-foldl-unique_step vs (unique_step r v) t, contains-unique_step r v t)

-- The result has exactly the trimmed inputs that are not blank.
pub contains-unique_sorted :
    (values : List String) (t : String)
    → contains (unique_sorted values) t ≡ (not (t == "") && contains (map trim_space values) t)
unfolding unique_sorted
contains-unique_sorted values t =
    contains-sort_by (foldl unique_step [] values) t
    ∙ contains-foldl-unique_step values [] t
    ∙ unfold contains in refl

-- A list contains each of its elements.
pub contains_each : (xs : List String) → All (λ x. contains xs x ≡ true) xs
unfolding contains
contains_each [] = tt
contains_each (x ∷ xs) = (
  ground (arith, eq_refl x),
  All-mono {P = λ y. contains xs y ≡ true} {Q = λ y. (x == y || contains xs y) ≡ true}
      (λ y h. ground arith) xs (contains_each xs),
)

pub IsAscending-IsDistinct : (xs : List String) → IsAscending text_lt xs → IsDistinct xs
IsAscending-IsDistinct [] a = tt
IsAscending-IsDistinct (x ∷ xs) a = (
  All-mono {P = λ y. text_lt x y ≡ true} {Q = λ y. x ≢ y}
      (λ y h e. cc (h, text_lt_irrefl x, ap (text_lt x) e)) xs a.0,
  IsAscending-IsDistinct xs a.1,
)

pub unique_sorted-IsTrimmed : (values : List String) → All IsTrimmed (unique_sorted values)
unique_sorted-IsTrimmed values =
    All-mono {P = Comes (λ x. Unit {0})} {Q = IsTrimmed}
      (λ v c. subst IsTrimmed c.1.1 (trim_space_idem c.1.0)) (unique_sorted values)
      (All-unique_sorted (λ x. Unit {0}) values (All_of (λ x. tt) values))

pub unique_sorted-nil : unique_sorted [] ≡ []
unfolding unique_sorted sort_by
unique_sorted-nil = refl
