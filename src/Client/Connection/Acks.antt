-- ===== src/Client/Connection/Acks.antt =====
-- What holds on a connection at any time: who is handed deliveries, and how often each is
-- acknowledged.
pub mod Invariant
pub mod Deliveries
use awp.Common.{
  ℕ, ◌+◌, ◌≤◌, String, Bool, true, false, Option, some, is_empty, List, [], ◌∷◌, ◌++◌, Result, ok,
  err, fail_if, fail_if-then, >>=-eq-ok, >>-eq-ok, ok-injective, get_elem?, ◌==◌, ◌&&◌, ◌||◌, not,
  if◌then◌else◌, ◌≡◌, ◌⊎◌, inl, inr, refl, subst, arith, eq_iff, All, All-append, Bool-cases,
  Option-cases, Result-cases,
}
use awp.Client.Connection.Counts.{count, acks, count-append, acks-append, count-remove_at}
use awp.Client.Connection.{
  Message, DeliveryData, TargetData, SessionRegistration, Options, Written, hello, bind, pong,
  Error, session_registrations, is_registered, Connection, Step, goes_on, returns, opened, Event,
  reads, read_error, finishes, after, validate, received, decoded, write, bind_all, acknowledgement,
  validate_target, welcomed, deliverable, accept, delivered, dispatch, finish, step, loop, run,
  server_welcome, event_deliver, heartbeat_ping, permission_request, session_bound, error_action,
  session_bound, error_action,
}
use awp.Client.Connection.Acks.Invariant.{
  acks-acknowledged, validate_target-IsTarget, write-IsValid, bind_all-IsValid, on_received, on_if,
  welcomed-IsValid, acknowledged, IsTarget, IsValid,
}
use awp.Client.Connection.Acks.Deliveries.{delivered-IsValid, finish-IsValid}

module _ (is_rfc3339 is_object : String → Bool) (decode_welcome : String → Option String)
    (decode_delivery : String → Option DeliveryData) (decode_target : String → Option TargetData)
    (o : Options) (writes : Written → Bool) where
  dispatch-IsValid :
      (m : Message) (c : Connection)
      → IsValid decode_target o c
      → IsValid decode_target o (
          after (
            dispatch is_rfc3339 is_object decode_welcome decode_delivery decode_target o writes m
              c))
  unfolding dispatch
  dispatch-IsValid m c v =
      on_if decode_target o (m.action == server_welcome) _ _
        (welcomed-IsValid is_rfc3339 is_object decode_welcome decode_delivery decode_target o writes
          m c v)
        (on_if decode_target o (m.action == event_deliver) _ _
          (delivered-IsValid is_rfc3339 is_object decode_welcome decode_delivery decode_target o
            writes m c v)
          (on_if decode_target o (m.action == heartbeat_ping) _ _
            (write-IsValid is_rfc3339 is_object decode_welcome decode_delivery decode_target o
              writes (pong m.id) c goes_on (λ p. refl) v (λ c' h. h))
            (on_if decode_target o
              (m.action == session_bound
                || m.action == permission_request
                || m.action == error_action)
              _ _
              (on_received decode_target o
                (received is_rfc3339 is_object decode_welcome decode_delivery decode_target o writes
                  m)
                c
                (if m.action == permission_request && o.stop_after_permission_request
                  then returns (ok tt) c
                  else goes_on c)
                v
                (on_if decode_target o
                  (m.action == permission_request && o.stop_after_permission_request) _ _ v v))
              v)))

  step-IsValid :
      (e : Event) (c : Connection)
      → IsValid decode_target o c
      → IsValid decode_target o (
          after
            (step is_rfc3339 is_object decode_welcome decode_delivery decode_target o writes e c))
  unfolding step
  step-IsValid (reads m) c v =
      on_if decode_target o c.closed _ _ v (elim (Result-cases (validate is_rfc3339 is_object m)) [
        | inr (x, e) ↦ rw (e, step) v
        | inl (u, e) ↦ rw (e, step) (dispatch-IsValid m c v)
      ])
  step-IsValid read_error c v = v
  step-IsValid (finishes i) c v =
      finish-IsValid is_rfc3339 is_object decode_welcome decode_delivery decode_target o writes i c
        v

  loop-IsValid :
      (es : List Event) (c : Connection)
      → IsValid decode_target o c
      → IsValid decode_target o (
          after
            (loop is_rfc3339 is_object decode_welcome decode_delivery decode_target o writes es c))
  unfolding loop
  loop-IsValid [] c v = v
  loop-IsValid (e ∷ es) c v =
      on_step (step is_rfc3339 is_object decode_welcome decode_delivery decode_target o writes e c)
        (step-IsValid e c v) (λ c' h. loop-IsValid es c' h)
    where
      on_step :
          (s : Step)
          → IsValid decode_target o (after s)
          → ((c' : Connection)
              → IsValid decode_target o c'
              → IsValid decode_target o (
                  after (
                    loop is_rfc3339 is_object decode_welcome decode_delivery decode_target o writes
                      es c')))
          → IsValid decode_target o (
              after (elim s [
                | returns r c' ↦ returns r c'
                | goes_on c' ↦
                    loop is_rfc3339 is_object decode_welcome decode_delivery decode_target o writes
                      es c'
              ]))
      on_step (returns r c') h k = h
      on_step (goes_on c') h k = k c' h

  -- At any time of a connection, whatever is read and in whatever order the deliveries finish: none
  -- is accepted, to be given to `Handle`, before the welcome; all that are accepted are for this
  -- device, and for a registered session if any session is registered; and of any kind of delivery no
  -- more are acknowledged, together with those in progress, than were accepted. `Receive`, which gets
  -- each message before its target is checked, does not count.
  pub run-IsValid :
      (events : List Event)
      → IsValid decode_target o (
          after
            (run is_rfc3339 is_object decode_welcome decode_delivery decode_target o writes events))
  unfolding run
  run-IsValid events =
      write-IsValid is_rfc3339 is_object decode_welcome decode_delivery decode_target o writes hello
        opened
        (loop is_rfc3339 is_object decode_welcome decode_delivery decode_target o writes events)
        (λ p. refl) (record { welcome = λ h. refl; targets = tt; counted = λ p. omega arith })
        (λ c v. loop-IsValid events c v)
