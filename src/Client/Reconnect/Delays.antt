-- ===== src/Client/Reconnect/Delays.antt =====
-- The delays of `runWithReconnect`: doubled after each wait, up to the maximum.
use awp.Common.{
  ℕ, zero, suc, ◌+◌, ◌-◌, ◌*◌, ◌%◌, ◌^◌, ◌≤◌, ◌<◌, Bool, true, some, List, [], ◌∷◌, ltb, leb, ◌&&◌,
  not, if◌then◌else◌, ◌≡◌, ◌⊎◌, subst, inl, inr, refl, sym, ◌∙◌, ap, arith, Bool-cases, get_elem?,
}
use awp.Client.Reconnect.{
  word, half, signed_lt, ReconnectPolicy, with_defaults, next_delay, Attempt, reconnect,
  run_with_reconnect,
}

abbrev pub min : ℕ → ℕ → ℕ
min a b = if ltb a b then a else b

signed_lt-positive : (a b : ℕ) → a < half → b < half → signed_lt a b ≡ ltb a b
signed_lt-positive a b h k =
    let e : (a + half) % word ≡ a + half = omega arith in
    let f : (b + half) % word ≡ b + half = omega arith in rw (e, f) (ground arith)

next_delay-min :
    (max delay : ℕ) → max < 2 ^ 62 → delay ≤ max → next_delay max delay ≡ min (delay * 2) max
unfolding next_delay
next_delay-min max delay h k =
    let small : (delay * 2) % word ≡ delay * 2 = omega arith in
    let first = signed_lt-positive delay max (omega arith) (omega arith) in
    let next = signed_lt-positive max (delay * 2) (omega arith) (omega arith) in
    ground (arith, small, first, next)

positive_of_signed_lt : (a : ℕ) → a < word → signed_lt 0 a ≡ true → a < half
positive_of_signed_lt a h k = elim (Bool-cases (ltb a half)) [
  | inl e ↦ ground (arith, e)
  | inr e ↦
      let big : half ≤ a = ground (arith, e) in
      let f : (a + half) % word ≡ a - half = omega arith in absurd (ground (arith, rw f at k))
]

with_defaults-bounds :
    (policy : ReconnectPolicy)
    → policy.initial_delay < word
    → policy.max_delay < 2 ^ 62
    → ((with_defaults policy).max_delay < 2 ^ 62) × ((with_defaults policy).initial_delay < half)
unfolding with_defaults
with_defaults-bounds policy i m =
    (ground arith, ground (arith, positive_of_signed_lt policy.initial_delay i))

-- `d`, doubled `k` times
abbrev pub doubled : ℕ → ℕ → ℕ
doubled d zero = d
doubled d (suc k) = doubled (d * 2) k

le-doubled : (k d : ℕ) → d ≤ doubled d k
le-doubled zero d = omega arith
le-doubled (suc k) d = omega (arith, le-doubled k (d * 2))

doubled_mono : (k a b : ℕ) → a ≤ b → doubled a k ≤ doubled b k
doubled_mono zero a b h = h
doubled_mono (suc k) a b h = doubled_mono k (a * 2) (b * 2) (omega arith)

min-doubled : (k max d : ℕ) → min (doubled (min (d * 2) max) k) max ≡ min (doubled (d * 2) k) max
min-doubled k max d = elim (Bool-cases (ltb (d * 2) max)) [
  | inl e ↦ rw e
  | inr e ↦
      let big : max ≤ d * 2 = ground (arith, e) in
      let far = doubled_mono k max (d * 2) big in
      let here = le-doubled k max in rw e (ground (arith, far, here))
]

waits_cases :
    (once : Bool) (max d : ℕ) (a : Attempt) (attempts : List Attempt)
    → let waits = (reconnect once max d (a ∷ attempts)).0 in
      (waits ≡ [])
      ⊎ ((waits ≡ d ∷ []) ⊎ (waits ≡ d ∷ (reconnect once max (next_delay max d) attempts).0))
unfolding reconnect
waits_cases once max d a attempts = elim (Bool-cases a.is_cancelled) [
  | inl e ↦ inl (ground (arith, e))
  | inr e ↦ elim (Bool-cases (once && not a.is_error)) [
    | inl f ↦ inl (ground (arith, e, f))
    | inr f ↦ elim (Bool-cases a.is_cancelled_waiting) [
      | inl g ↦ inr (inl (ground (arith, e, f, g)))
      | inr g ↦ inr (inr (ground (arith, e, f, g)))
    ]
  ]
]

first_wait : (d : ℕ) (rest : List ℕ) {w : ℕ} → get_elem? (d ∷ rest) 0 ≡ some w → w ≡ d
first_wait d rest h = cc

-- A property of the first delay and of those of the rest is one of all.
waits_by :
    (P : ℕ → ℕ → Type 0) (once : Bool) (max d : ℕ) (a : Attempt) (attempts : List Attempt)
    → P 0 d
    → ((k w : ℕ)
        → get_elem? (reconnect once max (next_delay max d) attempts).0 k ≡ some w
        → P (suc k) w)
    → (k w : ℕ) → get_elem? (reconnect once max d (a ∷ attempts)).0 k ≡ some w
    → P k w
waits_by P once max d a attempts first rest k w h = elim (waits_cases once max d a attempts) [
  | inl e ↦ absurd (cc (rw e at h))
  | inr (inl e) ↦ by_index _ (inl refl) k (rw e at h)
  | inr (inr e) ↦ by_index _ (inr refl) k (rw e at h)
]
  where
    by_index :
        (ws : List ℕ)
        → (ws ≡ []) ⊎ (ws ≡ (reconnect once max (next_delay max d) attempts).0)
        → (k : ℕ) → get_elem? (d ∷ ws) k ≡ some w
        → P k w
    by_index ws o zero f = subst (P 0) (sym (first_wait d ws f)) first
    by_index ws (inl e) (suc k) f = absurd (cc (rw e at f))
    by_index ws (inr e) (suc k) f = rest k w (rw e at f)

waits-min :
    (once : Bool) (max d : ℕ) (attempts : List Attempt)
    → max < 2 ^ 62
    → d ≤ max
    → (k w : ℕ) → get_elem? (reconnect once max d attempts).0 k ≡ some w
    → w ≡ min (doubled d k) max
waits-min once max d [] m le k w h = unfold reconnect in absurd (cc)
waits-min once max d (a ∷ attempts) m le k w h =
    let next = next_delay-min max d m le in
    waits_by (λ k w. w ≡ min (doubled d k) max) once max d a attempts (ground (arith, le))
      (λ k w h.
        waits-min once max (next_delay max d) attempts m (rw next (ground arith)) k w h
        ∙ ap (λ z. min (doubled z k) max) next
        ∙ min-doubled k max d)
      k w h

waits-fixed :
    (once : Bool) (max d : ℕ) (attempts : List Attempt)
    → max < 2 ^ 62
    → d < half
    → max < d
    → (k w : ℕ) → get_elem? (reconnect once max d attempts).0 k ≡ some w
    → w ≡ d
waits-fixed once max d [] m p lt k w h = unfold reconnect in absurd (cc)
waits-fixed once max d (a ∷ attempts) m p lt k w h =
    let test = signed_lt-positive d max p (omega arith) in
    let stays : next_delay max d ≡ d = unfold next_delay in ground (arith, test) in
    waits_by (λ k w. w ≡ d) once max d a attempts refl
      (λ k w h.
        waits-fixed once max d attempts m p lt k w
          (subst (λ z. get_elem? (reconnect once max z attempts).0 k ≡ some w) stays h))
      k w h

-- With the defaults filled in, the `k`-th wait of `runWithReconnect`, from 0, is the initial delay
-- doubled `k` times, or the maximum if that is less; and where the initial delay is above the
-- maximum, every wait is the initial delay. This is for a maximum below 2^62 nanoseconds (146
-- years), so that no doubling overflows.
pub run_with_reconnect-waits :
    (once : Bool) (policy : ReconnectPolicy) (attempts : List Attempt) (k w : ℕ)
    → policy.initial_delay < word
    → policy.max_delay < 2 ^ 62
    → let p = with_defaults policy in
      get_elem? (run_with_reconnect once policy attempts).0 k ≡ some w
      → w ≡ (
          if leb p.initial_delay p.max_delay
          then min (doubled p.initial_delay k) p.max_delay
          else p.initial_delay)
unfolding run_with_reconnect
run_with_reconnect-waits once policy attempts k w i m h =
    let p = with_defaults policy in
    let (small, positive) = with_defaults-bounds policy i m in
    elim (Bool-cases (leb p.initial_delay p.max_delay)) [
      | inl e ↦
          rw e (waits-min once p.max_delay p.initial_delay attempts small (ground (arith, e)) k w h)
      | inr e ↦ rw e (
          waits-fixed once p.max_delay p.initial_delay attempts small positive (ground (arith, e)) k
            w h)
    ]
