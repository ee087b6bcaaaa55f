-- ===== src/Permissions/Names/Idempotent.antt =====
-- internal/permissions/store.go: `uniqueSorted` on what it has made.
use mathlib.Core.List.{append_assoc, append-nil}
use awp.Common.{
  String, true, false, List, [], ◌∷◌, ◌++◌, ◌≡◌, ◌≢◌, refl, sym, ap, ◌∙◌, arith, eq_iff, foldl, All,
  All-mono, All-zip, All_of,
}
use awp.Common.Order.{text_lt, text_lt_asym}
use awp.Common.Sort.{IsDistinct, IsAscending, insert_by, sort_by}
use awp.Permissions.Names.{
  contains, unique_step, unique_sorted, IsTrimmed, Comes, unique_sorted-IsAscending,
  unique_sorted-IsTrimmed, All-unique_sorted, IsAscending-IsDistinct,
}

-- What the loop takes as it is, behind `r`.
abbrev IsNew : List String → String → Type 0
IsNew r v = (v ≢ "") × IsTrimmed v × (contains r v ≡ false)

unique_step-IsNew : (r : List String) (v : String) → IsNew r v → unique_step r v ≡ r ++ v ∷ []
unique_step-IsNew r v h = rw h.1 (ground (arith, h.2, eq_iff v ""))

contains-append_false :
    (r : List String) (v w : String)
    → contains r w ≡ false
    → v ≢ w
    → contains (r ++ v ∷ []) w ≡ false
unfolding contains
contains-append_false [] v w h n = ground (arith, eq_iff v w)
contains-append_false (x ∷ r) v w h n = ground (arith, contains-append_false r v w)

unique_of_new :
    (vs r : List String) → All (IsNew r) vs → IsDistinct vs → foldl unique_step r vs ≡ r ++ vs
unique_of_new [] r h d = sym (append-nil r)
unique_of_new (v ∷ vs) r h d =
    let later =
      All-mono {P = λ w. IsNew r w × (v ≢ w)} {Q = IsNew (r ++ v ∷ [])}
        (λ w k. (k.0.0, k.0.1, contains-append_false r v w k.0.2 k.1)) vs
        (All-zip (IsNew r) (λ w. v ≢ w) vs h.1 d.0) in
    ap (λ x. foldl unique_step x vs) (unique_step-IsNew r v h.0)
    ∙ unique_of_new vs (r ++ v ∷ []) later d.1
    ∙ append_assoc r (v ∷ []) vs

insert_by_first :
    (x : String) (ys : List String)
    → All (λ y. text_lt x y ≡ true) ys
    → insert_by text_lt x ys ≡ x ∷ ys
unfolding insert_by
insert_by_first x [] h = refl
insert_by_first x (y ∷ ys) h = rw (text_lt_asym x y h.0)

sort_by_of_IsAscending : (xs : List String) → IsAscending text_lt xs → sort_by text_lt xs ≡ xs
unfolding sort_by
sort_by_of_IsAscending [] a = refl
sort_by_of_IsAscending (x ∷ xs) a =
    ap (insert_by text_lt x) (sort_by_of_IsAscending xs a.1) ∙ insert_by_first x xs a.0

pub unique_sorted_idem :
    (values : List String) → unique_sorted (unique_sorted values) ≡ unique_sorted values
unique_sorted_idem values =
    let xs = unique_sorted values in
    let up = unique_sorted-IsAscending values in
    let clean =
      All-mono {P = λ v. Comes (λ x. Unit {0}) v × IsTrimmed v} {Q = IsNew []}
        (λ v c. (c.0.0, c.1, unfold contains in refl)) xs
        (All-zip (Comes (λ x. Unit {0})) IsTrimmed xs
          (All-unique_sorted (λ x. Unit {0}) values (All_of (λ x. tt) values))
          (unique_sorted-IsTrimmed values)) in
    unfold unique_sorted in
    (ap (sort_by text_lt) (unique_of_new xs [] clean (IsAscending-IsDistinct xs up))
      ∙ sort_by_of_IsAscending xs up)
