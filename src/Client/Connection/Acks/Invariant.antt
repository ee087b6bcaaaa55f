-- ===== src/Client/Connection/Acks/Invariant.antt =====
-- internal/client/client.go: what holds on a connection, and the welcome.
use awp.Common.{
  ◌+◌, ◌≤◌, String, Bool, true, false, Option, some, is_empty, List, [], ◌∷◌, Result, ok, err,
  fail_if, fail_if-then, ◌==◌, ◌&&◌, not, if◌then◌else◌, ◌≡◌, ◌⊎◌, inl, inr, refl, arith, eq_iff,
  All, Bool-cases, Option-cases,
}
use awp.Client.Connection.Counts.{count, acks, acks-append}
use awp.Client.Connection.{
  Message, DeliveryData, TargetData, SessionRegistration, Options, Written, bind, Error,
  session_registrations, is_registered, Connection, Step, returns, after, received, write, bind_all,
  acknowledgement, validate_target, welcomed,
}

module _ (decode_target : String → Option TargetData) (o : Options) where
  -- A delivery for this device, and for one of the registered sessions if there are any.
  abbrev pub IsTarget : DeliveryData → Type 0
  IsTarget d =
      (t : TargetData) × (decode_target d.target ≡ some t)
      × (t.device_id ≡ o.device_id)
      × ((is_empty (session_registrations o) ≡ true)
          ⊎ (is_registered t.session_id (session_registrations o) ≡ true))

  pub record IsValid (c : Connection) : Type 0 where
    pub welcome : c.welcome_received ≡ false → c.accepted ≡ []
    pub targets : All IsTarget c.accepted
    pub counted :
        (p : DeliveryData → Bool) → acks p c.written + count p c.processing ≤ count p c.accepted

  pub on_received :
      (r : Result Error (Unit {0})) (c : Connection) (next : Step)
      → IsValid c
      → IsValid (after next)
      → IsValid (after (elim r [ err e ↦ returns (err e) c | ok u ↦ next ]))
  on_received (err e) c next v k = v
  on_received (ok u) c next v k = k

  pub on_if :
      (b : Bool) (x y : Step)
      → IsValid (after x)
      → IsValid (after y)
      → IsValid (after (if b then x else y))
  on_if true x y h k = h
  on_if false x y h k = k

  -- The invariant says nothing of a connection without a delivery, once it is welcomed.
  welcome-IsValid : (c : Connection) → IsValid c → IsValid (record c { welcome_received = true })
  welcome-IsValid c v = record {
    welcome = λ h. absurd (cc);
    targets = v.targets;
    counted = v.counted;
  }

module _ (is_rfc3339 is_object : String → Bool) (decode_welcome : String → Option String)
    (decode_delivery : String → Option DeliveryData) (decode_target : String → Option TargetData)
    (o : Options) (writes : Written → Bool) where
  abbrev pub acknowledged : DeliveryData → Written
  acknowledged =
      acknowledgement is_rfc3339 is_object decode_welcome decode_delivery decode_target o writes

  pub acks-acknowledged :
      (p : DeliveryData → Bool) (d : DeliveryData) → acks p (acknowledged d ∷ []) ≡ count p (d ∷ [])
  acks-acknowledged p d = refl

  pub validate_target-IsTarget :
      (d : DeliveryData) {u : Unit {0}}
      → validate_target is_rfc3339 is_object decode_welcome decode_delivery decode_target o writes d
        ≡ ok u
      → IsTarget decode_target o d
  unfolding validate_target
  validate_target-IsTarget d {u} h = elim (Option-cases (decode_target d.target)) [
    | inl e ↦ absurd (cc (rw (e, validate_target) at h))
    | inr (t, e) ↦
        let (f, g) =
          fail_if-then (not (t.device_id == o.device_id)) _ _ (rw (e, validate_target) at h) in
        (t, e, ground (arith, f, eq_iff t.device_id o.device_id), allowed _ _ _ g)
  ]
    where
      allowed :
          (a b : Bool) (e : Error) → fail_if (not a && not b) e ≡ ok tt → (a ≡ true) ⊎ (b ≡ true)
      allowed true b e f = inl refl
      allowed false true e f = inr refl
      allowed false false e f = absurd (cc)

  -- A write that is no acknowledgement.
  pub write-IsValid :
      (w : Written) (c : Connection) (next : Connection → Step)
      → ((p : DeliveryData → Bool) → acks p (w ∷ []) ≡ 0)
      → IsValid decode_target o c
      → ((c' : Connection) → IsValid decode_target o c' → IsValid decode_target o (after (next c')))
      → IsValid decode_target o (
          after (
            write is_rfc3339 is_object decode_welcome decode_delivery decode_target o writes w c
              next))
  write-IsValid w c next n v k = elim (Bool-cases (writes w)) [
    | inl e ↦ rw e (
        k _ (record {
          welcome = v.welcome;
          targets = v.targets;
          counted = λ p. omega (arith, acks-append p c.written w, n p, v.counted p);
        }))
    | inr e ↦ rw e v
  ]

  pub bind_all-IsValid :
      (rs : List SessionRegistration) (c : Connection)
      → IsValid decode_target o c
      → IsValid decode_target o (
          after (
            bind_all is_rfc3339 is_object decode_welcome decode_delivery decode_target o writes rs
              c))
  unfolding bind_all
  bind_all-IsValid [] c v = v
  bind_all-IsValid (r ∷ rs) c v = elim (Bool-cases (writes (bind r))) [
    | inl e ↦ rw e (
        bind_all-IsValid rs _ (record {
          welcome = v.welcome;
          targets = v.targets;
          counted = λ p. omega (arith, acks-append p c.written (bind r), v.counted p);
        }))
    | inr e ↦ rw e v
  ]

  pub welcomed-IsValid :
      (m : Message) (c : Connection)
      → IsValid decode_target o c
      → IsValid decode_target o (
          after (
            welcomed is_rfc3339 is_object decode_welcome decode_delivery decode_target o writes m
              c))
  unfolding welcomed
  welcomed-IsValid m c v = elim (Option-cases (decode_welcome m.data_text)) [
    | inl e ↦ rw (e, welcomed) v
    | inr (device, e) ↦ elim (Bool-cases (not (device == o.device_id))) [
      | inl f ↦ rw (e, welcomed) (rw f v)
      | inr f ↦
          let v' = welcome-IsValid decode_target o c v in
          rw (e, welcomed)
            (rw f (
              on_received decode_target o
                (received is_rfc3339 is_object decode_welcome decode_delivery decode_target o writes
                  m)
                _
                (bind_all is_rfc3339 is_object decode_welcome decode_delivery decode_target o writes
                  (session_registrations o) (record c { welcome_received = true }))
                v' (bind_all-IsValid (session_registrations o) _ v')))
    ]
  ]
