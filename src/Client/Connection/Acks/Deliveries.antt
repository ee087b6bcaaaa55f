-- ===== src/Client/Connection/Acks/Deliveries.antt =====
-- internal/client/client.go: a delivery, from its arrival to its acknowledgement.
use awp.Common.{
  ℕ, String, Bool, true, Option, [], ◌∷◌, ◌++◌, ok, fail_if-then, >>=-eq-ok, >>-eq-ok, ok-injective,
  get_elem?, ◌==◌, ◌&&◌, ◌||◌, not, ◌≡◌, inl, inr, subst, arith, All-append, Bool-cases,
  Option-cases, Result-cases,
}
use awp.Client.Connection.Counts.{count-append, acks-append, count-remove_at}
use awp.Client.Connection.{
  Message, DeliveryData, TargetData, Options, Written, Connection, after, received, decoded,
  validate_target, deliverable, accept, delivered, finish,
}
use awp.Client.Connection.Acks.Invariant.{
  validate_target-IsTarget, on_if, acknowledged, IsTarget, IsValid,
}

module _ (is_rfc3339 is_object : String → Bool) (decode_welcome : String → Option String)
    (decode_delivery : String → Option DeliveryData) (decode_target : String → Option TargetData)
    (o : Options) (writes : Written → Bool) where
  pub deliverable-ok :
      (m : Message) (c : Connection) {d : DeliveryData}
      → deliverable is_rfc3339 is_object decode_welcome decode_delivery decode_target o writes m c
        ≡ ok d
      → (c.welcome_received ≡ true) × IsTarget decode_target o d
  unfolding deliverable
  deliverable-ok m c {d} h₀ =
      let (w, h₁) = fail_if-then (not c.welcome_received) _ _ h₀ in
      let welcome : c.welcome_received ≡ true = ground (arith, w) in
      let (_, _, h₂) =
        >>-eq-ok
          (received is_rfc3339 is_object decode_welcome decode_delivery decode_target o writes m) _
          h₁ in
      let (d', _, h₃) =
        >>=-eq-ok
          (decoded is_rfc3339 is_object decode_welcome decode_delivery decode_target o writes m) _
          h₂ in
      let (_, h₄) = fail_if-then (d'.delivery_id == "" || d'.event_id == "") _ _ h₃ in
      let (u, t, h₅) =
        >>-eq-ok
          (validate_target is_rfc3339 is_object decode_welcome decode_delivery decode_target o
            writes d')
          _ h₄ in
      (
        welcome,
        subst (IsTarget decode_target o) (ok-injective h₅) (
            validate_target-IsTarget is_rfc3339 is_object decode_welcome decode_delivery
              decode_target o writes d' t),
      )

  pub accept-IsValid :
      (d : DeliveryData) (c : Connection)
      → c.welcome_received ≡ true
      → IsTarget decode_target o d
      → IsValid decode_target o c
      → IsValid decode_target o (
          after
            (accept is_rfc3339 is_object decode_welcome decode_delivery decode_target o writes d c))
  unfolding accept
  accept-IsValid d c w t v =
      let targets = All-append (IsTarget decode_target o) c.accepted (d ∷ []) v.targets (t, tt) in
      elim (Bool-cases (o.concurrent && not o.once)) [
        | inl e ↦ rw e (record {
          welcome = λ h. absurd (cc);
          targets = targets;
          counted = λ p.
              omega
                (arith, count-append p c.accepted d, count-append p c.processing d, v.counted p);
        })
        | inr e ↦
            rw e
              (elim (Bool-cases (
                writes (
                  acknowledged is_rfc3339 is_object decode_welcome decode_delivery decode_target o
                    writes d))) [
                      | inr f ↦ rw f (record {
                        welcome = λ h. absurd (cc);
                        targets = targets;
                        counted = λ p. omega (arith, count-append p c.accepted d, v.counted p);
                      })
                      | inl f ↦ rw f (on_if decode_target o o.once _ _ (done f) (done f))
                    ])
      ]
    where
      done :
          writes (
              acknowledged is_rfc3339 is_object decode_welcome decode_delivery decode_target o
                writes d)
            ≡ true
          → IsValid decode_target o (record c {
            accepted = c.accepted ++ d ∷ [];
            written =
                c.written
                ++ acknowledged is_rfc3339 is_object decode_welcome decode_delivery decode_target o
                    writes d
                  ∷ [];
          })
      done f = record {
        welcome = λ h. absurd (cc);
        targets = All-append (IsTarget decode_target o) c.accepted (d ∷ []) v.targets (t, tt);
        counted = λ p. omega (
          arith,
          count-append p c.accepted d,
          acks-append p c.written (
              acknowledged is_rfc3339 is_object decode_welcome decode_delivery decode_target o
                writes d),
          v.counted p,
        );
      }

  pub delivered-IsValid :
      (m : Message) (c : Connection)
      → IsValid decode_target o c
      → IsValid decode_target o (
          after (
            delivered is_rfc3339 is_object decode_welcome decode_delivery decode_target o writes m
              c))
  unfolding delivered
  delivered-IsValid m c v =
      elim (Result-cases (
        deliverable is_rfc3339 is_object decode_welcome decode_delivery decode_target o writes m
          c)) [
            | inr (x, e) ↦ rw (e, delivered) v
            | inl (d, e) ↦
                let (w, t) = deliverable-ok m c e in rw (e, delivered) (accept-IsValid d c w t v)
          ]

  pub finish-IsValid :
      (i : ℕ) (c : Connection)
      → IsValid decode_target o c
      → IsValid decode_target o (
          after
            (finish is_rfc3339 is_object decode_welcome decode_delivery decode_target o writes i c))
  unfolding finish
  finish-IsValid i c v = elim (Option-cases (get_elem? c.processing i)) [
    | inl e ↦ rw (e, finish) v
    | inr (d, e) ↦
        rw (e, finish)
          (on_if decode_target o
            (writes (
              acknowledged is_rfc3339 is_object decode_welcome decode_delivery decode_target o
                writes d))
            _ _
            (record {
              welcome = v.welcome;
              targets = v.targets;
              counted = λ p. omega (
                arith,
                count-remove_at p i c.processing e,
                acks-append p c.written (
                    acknowledged is_rfc3339 is_object decode_welcome decode_delivery decode_target o
                      writes d),
                v.counted p,
              );
            })
            (record {
              welcome = v.welcome;
              targets = v.targets;
              counted = λ p. omega (arith, count-remove_at p i c.processing e, v.counted p);
            }))
  ]
