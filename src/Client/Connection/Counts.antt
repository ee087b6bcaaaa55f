-- ===== src/Client/Connection/Counts.antt =====
-- How many deliveries of a connection pass a test, and how many of those were acknowledged.
use awp.Common.{
  ℕ, zero, suc, ◌+◌, Bool, some, List, [], ◌∷◌, ◌++◌, get_elem?, remove_at, if◌then◌else◌, ◌≡◌,
  arith,
}
use awp.Client.Connection.{DeliveryData, Written, hello, bind, ack, pong}

-- How many deliveries of a list pass a test.
abbrev pub count : (DeliveryData → Bool) → List DeliveryData → ℕ
count p [] = 0
count p (d ∷ ds) = let rest = count p ds in if p d then suc rest else rest

-- How many acknowledgements of such deliveries were written.
abbrev pub acks : (DeliveryData → Bool) → List Written → ℕ
acks p [] = 0
acks p (ack d status result ∷ ws) = let rest = acks p ws in if p d then suc rest else rest
acks p (hello ∷ ws) = acks p ws
acks p (bind r ∷ ws) = acks p ws
acks p (pong id ∷ ws) = acks p ws

pub count-append :
    (p : DeliveryData → Bool) (ds : List DeliveryData) (d : DeliveryData)
    → count p (ds ++ d ∷ []) ≡ count p ds + count p (d ∷ [])
count-append p [] d = omega arith
count-append p (x ∷ xs) d = ground (arith, count-append p xs d)

pub acks-append :
    (p : DeliveryData → Bool) (ws : List Written) (w : Written)
    → acks p (ws ++ w ∷ []) ≡ acks p ws + acks p (w ∷ [])
acks-append p [] w = omega arith
acks-append p (ack d s r ∷ ws) w = ground (arith, acks-append p ws w)
acks-append p (hello ∷ ws) w = acks-append p ws w
acks-append p (bind r ∷ ws) w = acks-append p ws w
acks-append p (pong id ∷ ws) w = acks-append p ws w

pub count-remove_at :
    (p : DeliveryData → Bool) (i : ℕ) (ds : List DeliveryData) {d : DeliveryData}
    → get_elem? ds i ≡ some d
    → count p ds ≡ count p (remove_at i ds) + count p (d ∷ [])
count-remove_at p i [] h = absurd (cc)
count-remove_at p zero (x ∷ xs) {d} h = let same : x ≡ d = cc in rw same (ground arith)
count-remove_at p (suc i) (x ∷ xs) h = ground (arith, count-remove_at p i xs h)
