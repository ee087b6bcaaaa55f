-- ===== src/Client/Connection/Tests.antt =====
-- Runs of a connection, and its theorem at a concrete one. The decoders read texts of one form.
use awp.Common.{
  String, Bool, true, false, Option, some, none, List, [], ◌∷◌, err, ◌==◌, not, if◌then◌else◌, ◌≡◌,
  refl,
}
use awp.Client.Connection.{
  Message, DeliveryData, TargetData, Options, Written, hello, bind, ack, pong,
  deliver_before_welcome, Step, returns, Event, reads, finishes, after, validate, bind_all,
  validate_target, welcomed, deliverable, accept, delivered, dispatch, finish, step, loop, run,
}
use awp.Client.Connection.Acks.{run-IsValid}
use awp.Client.Connection.Acks.Invariant.{IsValid}

program : Unit {0}
unfolding validate bind_all validate_target welcomed deliverable accept delivered dispatch finish
    step loop run
program = tt

abbrev is_text : String → Bool
is_text s = not (s == "")

abbrev decode_welcome : String → Option String
decode_welcome s = if s == "{w}" then some "device-1" else none

abbrev first : DeliveryData
first = record { delivery_id = "d1"; event_id = "e1"; target = "{t}"; event = "{}" }

abbrev stray : DeliveryData
stray = record { delivery_id = "d2"; event_id = "e2"; target = "{u}"; event = "{}" }

abbrev decode_delivery : String → Option DeliveryData
decode_delivery s = if s == "{d1}" then some first else if s == "{d2}" then some stray else none

abbrev decode_target : String → Option TargetData
decode_target s =
    if s == "{t}"
    then some (record { device_id = "device-1"; session_id = "chat-1" })
    else some (record { device_id = "device-2"; session_id = "chat-1" })

abbrev options : Options
options = record {
  device_id = "device-1";
  session_id = "chat-1";
  adapter = "codex";
  sessions = [];
  once = false;
  concurrent = true;
  stop_after_permission_request = false;
  receive = none;
  handle = some (λ d. if d.event_id == "e1" then none else some "no");
}

abbrev message : String → String → Message
message action data_text = record {
  type_name = "awp";
  version = "0.1";
  id = "m1";
  action = action;
  timestamp = "t";
  data_text = data_text;
}

abbrev run_on : List Event → Step
run_on events =
    run is_text is_text decode_welcome decode_delivery decode_target options (λ w. true) events

abbrev registration : Written
registration = bind (record { session_id = "chat-1"; adapter = "codex" })

runs :
    ((after (
        run_on (
          reads (message "server.welcome" "{w}")
          ∷ reads (message "event.deliver" "{d1}")
          ∷ reads (message "heartbeat.ping" "{}")
          ∷ finishes 0
          ∷ []))).written
      ≡ hello ∷ registration ∷ pong "m1" ∷ ack first "completed" none ∷ [])
    × (run_on (reads (message "event.deliver" "{d1}") ∷ [])
        ≡ returns (err deliver_before_welcome) (after (run_on [])))
    × ((after (
          run_on (
            reads (message "server.welcome" "{w}")
            ∷ reads (message "event.deliver" "{d2}")
            ∷ []))).accepted
        ≡ [])
unfolding program
runs = (refl, refl, refl)

run-IsValid_example : IsValid decode_target options (
    after (
      run_on (
        reads (message "server.welcome" "{w}")
        ∷ reads (message "event.deliver" "{d1}")
        ∷ finishes 0
        ∷ [])))
run-IsValid_example =
    run-IsValid is_text is_text decode_welcome decode_delivery decode_target options (λ w. true)
      (reads (message "server.welcome" "{w}")
        ∷ reads (message "event.deliver" "{d1}")
        ∷ finishes 0
        ∷ [])
