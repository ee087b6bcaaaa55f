-- ===== src/Client/Connection.antt =====
-- internal/client/client.go and internal/protocol/message.go: one connection, from the hello to its
-- end. The JSON decoders and the check of a time text are parameters; so are the program's own
-- callbacks, whose answer is a function of what they are given. A delivery that is processed
-- concurrently is kept until it finishes, which is an event of its own.
pub mod Counts
pub mod Acks
mod Tests
use awp.Common.{
  ℕ, String, Bool, true, false, Option, some, none, is_some, is_empty, List, [], ◌∷◌, ◌++◌, Result,
  ok, err, ◌>>=◌, ◌>>◌, fail_if, get_elem?, remove_at, map, ◌==◌, ◌&&◌, ◌||◌, not, if◌then◌else◌,
}

abbrev pub message_type : String
message_type = "awp"

abbrev pub version : String
version = "0.1"

abbrev pub server_welcome : String
server_welcome = "server.welcome"

abbrev pub session_bound : String
session_bound = "session.bound"

abbrev pub permission_request : String
permission_request = "permission.request"

abbrev pub event_deliver : String
event_deliver = "event.deliver"

abbrev pub heartbeat_ping : String
heartbeat_ping = "heartbeat.ping"

abbrev pub error_action : String
error_action = "error"

pub record Message : Type 0 where
  pub type_name : String
  pub version : String
  pub id : String
  pub action : String
  pub timestamp : String
  pub data_text : String

pub record DeliveryData : Type 0 where
  pub delivery_id : String
  pub event_id : String
  pub target : String
  pub event : String

pub record TargetData : Type 0 where
  pub device_id : String
  pub session_id : String

pub record SessionRegistration : Type 0 where
  pub session_id : String
  pub adapter : String

-- `Receive` and `Handle` are `none` where the field is nil; they return an error's text or nothing.
pub record Options : Type 0 where
  pub device_id : String
  pub session_id : String
  pub adapter : String
  pub sessions : List SessionRegistration
  pub once : Bool
  pub concurrent : Bool
  pub stop_after_permission_request : Bool
  pub receive : Option (Message → Option String)
  pub handle : Option (DeliveryData → Option String)

-- What the client writes.
pub data Written : Type 0 where
  hello : Written
  bind : SessionRegistration → Written
  ack : DeliveryData → String → Option String → Written
  pong : String → Written

pub data Error : Type 0 where
  unsupported_type unsupported_version id_required action_required bad_timestamp data_required :
      Error
  bad_data read_failed write_failed not_decoded : Error
  wrong_device : String → Error
  deliver_before_welcome ids_required : Error
  bad_target : Error
  other_device unregistered_session : String → Error
  unexpected_action : String → Error
  callback_failed : String → Error

-- `sessionRegistrations`
abbrev pub session_registrations : Options → List SessionRegistration
session_registrations o =
    if not (is_empty o.sessions)
    then o.sessions
    else if o.session_id == ""
    then []
    else record { session_id = o.session_id; adapter = o.adapter } ∷ []

abbrev pub is_registered : String → List SessionRegistration → Bool
is_registered session_id [] = false
is_registered session_id (r ∷ rs) = session_id == r.session_id || is_registered session_id rs

-- The connection as the loop sees it: whether the welcome has come, what was written, what was
-- handed to `Handle`, and the deliveries that are still being processed.
pub record Connection : Type 0 where
  pub welcome_received : Bool
  pub written : List Written
  pub accepted : List DeliveryData
  pub processing : List DeliveryData
  pub closed : Bool

abbrev pub opened : Connection
opened = record {
  welcome_received = false;
  written = [];
  accepted = [];
  processing = [];
  closed = false;
}

-- What the loop does after an event: it goes on, or `Run` returns.
pub data Step : Type 0 where
  goes_on : Connection → Step
  returns : Result Error (Unit {0}) → Connection → Step

pub data Event : Type 0 where
  reads : Message → Event
  read_error : Event
  finishes : ℕ → Event

abbrev pub after : Step → Connection
after (goes_on c) = c
after (returns r c) = c

module _ (is_rfc3339 is_object : String → Bool) where
  -- `Message.Validate`
  unfoldable pub validate : Message → Result Error (Unit {0})
  validate m = do
    fail_if (not (m.type_name == message_type)) unsupported_type
    fail_if (not (m.version == version)) unsupported_version
    fail_if (m.id == "") id_required
    fail_if (m.action == "") action_required
    fail_if (not (is_rfc3339 m.timestamp)) bad_timestamp
    fail_if (m.data_text == "") data_required
    fail_if (not (is_object m.data_text)) bad_data

  module _ (decode_welcome : String → Option String)
      (decode_delivery : String → Option DeliveryData) (decode_target : String → Option TargetData)
      (o : Options) (writes : Written → Bool) where
    -- `receive`
    abbrev pub received : Message → Result Error (Unit {0})
    received m = elim o.receive [
      | none ↦ ok tt
      | some callback ↦ elim (callback m) [ none ↦ ok tt | some text ↦ err (callback_failed text) ]
    ]

    -- One write, and what the function goes on with.
    abbrev pub write : Written → Connection → (Connection → Step) → Step
    write w c next =
        if writes w
        then next (record c { written = c.written ++ w ∷ [] })
        else returns (err write_failed) c

    -- The loop of `bindSession`
    unfoldable pub bind_all : List SessionRegistration → Connection → Step
    bind_all [] c = goes_on c
    bind_all (r ∷ rs) c =
        if writes (bind r)
        then bind_all rs (record c { written = c.written ++ bind r ∷ [] })
        else returns (err write_failed) c

    -- `processDelivery`: the status and the error that are acknowledged
    abbrev pub ack_status : DeliveryData → String
    ack_status d = elim o.handle [
      | none ↦ "accepted"
      | some callback ↦ elim (callback d) [ none ↦ "completed" | some text ↦ "failed" ]
    ]

    abbrev pub ack_error : DeliveryData → Option String
    ack_error d = elim o.handle [ none ↦ none | some callback ↦ callback d ]

    abbrev pub acknowledgement : DeliveryData → Written
    acknowledgement d = ack d (ack_status d) (ack_error d)

    -- `validateTarget`
    unfoldable pub validate_target : DeliveryData → Result Error (Unit {0})
    validate_target d = elim (decode_target d.target) [
      | none ↦ err bad_target
      | some t ↦
          fail_if (not (t.device_id == o.device_id)) (other_device t.device_id)
          >> fail_if
              (not (is_empty (session_registrations o))
                && not (is_registered t.session_id (session_registrations o)))
              (unregistered_session t.session_id)
    ]

    unfoldable pub welcomed : Message → Connection → Step
    welcomed m c = elim (decode_welcome m.data_text) [
      | none ↦ returns (err not_decoded) c
      | some device_id ↦
          if not (device_id == o.device_id)
          then returns (err (wrong_device device_id)) c
          else let c' = record c { welcome_received = true } in
            elim (received m) [
              | err e ↦ returns (err e) c'
              | ok u ↦ bind_all (session_registrations o) c'
            ]
    ]

    abbrev pub decoded : Message → Result Error DeliveryData
    decoded m = elim (decode_delivery m.data_text) [ none ↦ err not_decoded | some d ↦ ok d ]

    -- The checks of an `event.deliver`.
    unfoldable pub deliverable : Message → Connection → Result Error DeliveryData
    deliverable m c = do
      fail_if (not c.welcome_received) deliver_before_welcome
      received m
      d ← decoded m
      fail_if (d.delivery_id == "" || d.event_id == "") ids_required
      validate_target d
      ok d

    -- `processDelivery` and `acknowledge` in the loop itself, or a goroutine that is started.
    unfoldable pub accept : DeliveryData → Connection → Step
    accept d c =
        let c' = record c { accepted = c.accepted ++ d ∷ [] } in
        if o.concurrent && not o.once
        then goes_on (record c' { processing = c.processing ++ d ∷ [] })
        else write (acknowledgement d) c' (λ c. if o.once then returns (ok tt) c else goes_on c)

    unfoldable pub delivered : Message → Connection → Step
    delivered m c = elim (deliverable m c) [ err e ↦ returns (err e) c | ok d ↦ accept d c ]

    -- The switch on the action.
    unfoldable pub dispatch : Message → Connection → Step
    dispatch m c =
        if m.action == server_welcome
        then welcomed m c
        else if m.action == event_deliver
        then delivered m c
        else if m.action == heartbeat_ping
        then write (pong m.id) c goes_on
        else if m.action == session_bound
            || m.action == permission_request
            || m.action == error_action
        then elim (received m) [
          | err e ↦ returns (err e) c
          | ok u ↦
              if m.action == permission_request && o.stop_after_permission_request
              then returns (ok tt) c
              else goes_on c
        ]
        else returns (err (unexpected_action m.action)) c

    -- The end of a goroutine: its acknowledgement, or else the connection is closed.
    unfoldable pub finish : ℕ → Connection → Step
    finish i c = elim (get_elem? c.processing i) [
      | none ↦ goes_on c
      | some d ↦
          let c' = record c { processing = remove_at i c.processing } in
          if writes (acknowledgement d)
          then goes_on (record c' { written = c.written ++ acknowledgement d ∷ [] })
          else goes_on (record c' { closed = true })
    ]

    -- One event: a message is read, a read fails, or a goroutine finishes.
    unfoldable pub step : Event → Connection → Step
    step (reads m) c =
        if c.closed
        then returns (err read_failed) c
        else elim (validate m) [ err e ↦ returns (err e) c | ok u ↦ dispatch m c ]
    step read_error c = returns (err read_failed) c
    step (finishes i) c = finish i c

    unfoldable pub loop : List Event → Connection → Step
    loop [] c = goes_on c
    loop (e ∷ es) c = elim (step e c) [ returns r c' ↦ returns r c' | goes_on c' ↦ loop es c' ]

    -- `Run`, once the connection is made
    unfoldable pub run : List Event → Step
    run events = write hello opened (loop events)
