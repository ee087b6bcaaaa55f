-- ===== src/Wake/Tests.antt =====
-- Runs of the event store, and its theorems at concrete histories.
use awp.Common.{true, false, List, [], ◌∷◌, ok, err, ◌≡◌, inl, refl, arith, eq_iff}
use awp.Common.Text.{trim_space}
use awp.Common.Keyed.{find_first, replace_first, upsert}
use awp.Wake.{
  SessionState, Store, Error, plain, new_store, get, gate, woken, bounded, appended, retried,
  deliver, ensure_session, write_session, record_trimmed, record_delivery, seen,
}
use awp.Wake.Status.{idle, completed, failed}
use awp.Wake.Changes.{
  finish, complete_event, with_status, pause, mark_crashed, resume, set_permissions,
}
use awp.Wake.Views.{pending}
use awp.Wake.Invariant.{IsValid}
use awp.Wake.History.{Call, delivers, completes, pauses, resumes, step, run, run-new_store-IsValid}
use awp.Wake.Dedup.{is_done, redelivery}
use awp.Wake.Gating.{is_held, run-is_held, complete_event-is_held}
use awp.Wake.Trimmed.{complete_event_untrimmed}

program : Unit {0}
unfolding find_first replace_first upsert trim_space get gate woken bounded appended retried deliver
    ensure_session write_session record_trimmed record_delivery seen finish complete_event
    with_status pause mark_crashed resume set_permissions step run pending is_done
program = tt

abbrev delivery : Call
delivery = delivers "t1" "sinores" "chat-1" " e1 " "d1" "{}"

abbrev other : Call
other = delivers "t2" "sinores" "chat-2" "e2" "d2" "{}"

abbrev started : Store
started = run (delivery ∷ other ∷ []) new_store

-- a failed event is retried, a completed one is a duplicate
abbrev after_failure : Store
after_failure = run (completes "t3" "t3" "sinores" "chat-1" "e1" failed ∷ []) started

abbrev after_success : Store
after_success = run (completes "t3" "t3" "sinores" "chat-1" "e1" completed ∷ []) started

done_flags :
    (is_done after_failure "sinores" "chat-1" "e1" ≡ false)
    × (is_done after_success "sinores" "chat-1" "e1" ≡ true)
    × (seen after_failure "sinores" "chat-1" "e1" ≡ true)
unfolding program
done_flags = (refl, refl, refl)

abbrev done_chat : SessionState
done_chat = record {
  provider = "sinores";
  session_id = "chat-1";
  created_at = "t1";
  lifecycle = plain idle "t3" "";
  events =
      record {
        event_id = "e1";
        delivery_id = "d1";
        status = completed;
        received_at = "t1";
        updated_at = "t3";
        event = "";
      }
      ∷ [];
  permissions = [];
}

abbrev history : List Call
history =
    delivery
    ∷ pauses "t2" "sinores" "chat-1" "busy"
    ∷ delivery
    ∷ resumes "t3" "sinores" "chat-1"
    ∷ []

run-new_store-IsValid_example : IsValid (run history new_store)
run-new_store-IsValid_example = run-new_store-IsValid history

redelivery_example :
    (y : SessionState) × ((record_delivery "t4" after_failure "sinores" "chat-1" "e1" "d2" "{}").0
      ≡ ok (y, false))
unfolding program
redelivery_example =
    redelivery "t3" "t3" "t4" started after_failure "sinores" "chat-1" "e1" failed "d2" "{}" _ refl
      refl refl refl (ground (arith, eq_iff "sinores" "")) (ground (arith, eq_iff "chat-1" ""))
      (ground (arith, eq_iff "e1" ""))

abbrev on_hold : Store
on_hold = run (pauses "t2" "sinores" "chat-1" "busy" ∷ []) started

run-is_held_example : is_held (run (delivery ∷ other ∷ []) on_hold) "sinores" "chat-1" ≡ true
unfolding program
run-is_held_example =
    run-is_held (delivery ∷ other ∷ []) on_hold "sinores" "chat-1" (inl refl, (inl refl, tt)) refl

complete_event-is_held_example :
    is_held
      (complete_event "t3" "t3" on_hold "sinores" "chat-1" "e1" completed).1
      "sinores"
      "chat-1"
    ≡ false
unfolding program
complete_event-is_held_example =
    complete_event-is_held "t3" "t3" on_hold "sinores" "chat-1" "e1" completed refl

complete_event_untrimmed_example :
    (e : Error) × (complete_event "t3" "t3"
        (run (delivery ∷ []) new_store)
        "sinores"
        "chat-1"
        " e1 "
        completed
      ≡ (err e, run (delivery ∷ []) new_store))
unfolding trim_space
complete_event_untrimmed_example =
    complete_event_untrimmed (delivery ∷ []) "t3" "t3" "sinores" "chat-1" " e1 " completed
      (ground (arith, eq_iff "e1" " e1 "))
