-- ===== src/Wake/Gating.antt =====
-- internal/wake/store.go: a paused or crashed session is held until somebody resumes it, or until
-- an event of it ends.
use Prim.Native.String.{◌++◌ as concat}
use awp.Common.{
  String, Bool, true, false, some, none, Option, List, [], ◌∷◌, ok, ◌≡◌, ◌⊎◌, inl, inr, refl, subst,
  ap, ◌∙◌, arith, All, ◌==◌, ◌||◌, Option-cases, Bool-cases,
}
use awp.Common.Text.{trim_space}
use awp.Wake.{
  EventRecord, SessionState, Store, matches, get, gate, woken, appended, retried, deliver,
  ensure_session, record_trimmed, record_delivery,
}
use awp.Wake.Status.{running, failed, paused, crashed}
use awp.Wake.Keys.{
  IsOther, get-matches, ensure_session-matches, ensure_session_present, get-write_session_self,
  matches-deliver, deliver_cases, key_cases,
}
use awp.Wake.Changes.{finish, complete_event, with_status, pause, mark_crashed, set_permissions}
use awp.Wake.History.{
  Call, delivers, completes, pauses, crashes, resumes, permits, step, run, complete_cases,
}
use awp.Wake.Isolation.{target, get-step_other}

abbrev pub gated : Option SessionState → Bool
gated none = false
gated (some x) = (gate x).0

-- The daemon holds deliveries for the session.
abbrev pub is_held : Store → String → String → Bool
is_held store p s = gated (get store p s)

-- What a delivery does to the lifecycle, on each of its three ways.
abbrev Delivers : SessionState → SessionState × Bool → Type 0
Delivers x y =
    ((y.1 ≡ true) × (y.0 ≡ x))
    ⊎ (((y.1 ≡ false) × ((gate x).0 ≡ true) × (y.0.lifecycle ≡ x.lifecycle))
        ⊎ ((y.1 ≡ false) × ((gate x).0 ≡ false) × (y.0.lifecycle.status ≡ running)))

woken_cases :
    (now : String) (x : SessionState) (reason : String)
    → (((gate x).0 ≡ true) × (woken now x reason ≡ x.lifecycle))
      ⊎ (((gate x).0 ≡ false) × ((woken now x reason).status ≡ running))
unfolding woken
woken_cases now x reason = elim (Bool-cases (gate x).0) [
  | inl e ↦ inl (e, rw e)
  | inr e ↦ inr (e, rw e)
]

-- A duplicate changes nothing of the session. Any other delivery leaves the lifecycle of a held
-- session as it is, and sets that of any other session to `running`.
pub deliver-Delivers :
    (now : String) (x : SessionState) (event_id delivery_id event : String)
    → Delivers x (deliver now x event_id delivery_id event)
deliver-Delivers now x event_id delivery_id event =
    elim (deliver_cases now x event_id delivery_id event) [
      | inl (h, e) ↦ rw e (elim (woken_cases now x (concat "processing event " event_id)) [
        | inl (g, w) ↦ inr (inl (refl, g, unfold appended in w))
        | inr (g, w) ↦ inr (inr (refl, g, unfold appended in w))
      ])
      | inr (inl (r, h, c, e)) ↦ rw e (inl (refl, refl))
      | inr (inr (r, h, c, e)) ↦
          rw e (elim (woken_cases now x (concat "retrying event " event_id)) [
            | inl (g, w) ↦ inr (inl (refl, g, unfold retried in w))
            | inr (g, w) ↦ inr (inr (refl, g, unfold retried in w))
          ])
    ]

gate_of_lifecycle : (x y : SessionState) → y.lifecycle ≡ x.lifecycle → (gate y).0 ≡ (gate x).0
unfolding gate
gate_of_lifecycle x y h = rw h

deliver-gate :
    (now : String) (x : SessionState) (event_id delivery_id event : String)
    → (gate x).0 ≡ true
    → (gate (deliver now x event_id delivery_id event).0).0 ≡ true
deliver-gate now x event_id delivery_id event h =
    elim (deliver-Delivers now x event_id delivery_id event) [
      | inl (d, e) ↦ rw e h
      | inr (inl (d, g, e)) ↦ gate_of_lifecycle x _ e ∙ h
      | inr (inr (d, g, e)) ↦ cc
    ]

held_session :
    (store : Store) (p s : String)
    → is_held store p s ≡ true
    → (x : SessionState) × (get store p s ≡ some x) × ((gate x).0 ≡ true)
held_session store p s h = elim (Option-cases (get store p s)) [
  | inl e ↦ absurd (ground (arith, e))
  | inr (x, e) ↦ (x, e, rw (e, gated) at h)
]

record_trimmed-is_held :
    (now : String) (store : Store) (p s event_id delivery_id event : String)
    → is_held store p s ≡ true
    → is_held (record_trimmed now store p s event_id delivery_id event).1 p s ≡ true
unfolding record_trimmed
record_trimmed-is_held now store p s event_id delivery_id event h =
    elim (Bool-cases (p == "" || s == "" || event_id == "")) [
      | inl e ↦ rw e h
      | inr e ↦
          let (x, f, g) = held_session store p s h in
          let read =
            get-write_session_self store p s
              (deliver now (ensure_session now store p s) event_id delivery_id event).0
              (matches-deliver p s now _ event_id delivery_id event
                ∙ ensure_session-matches now store p s) in
          rw (e, read, gated)
            (deliver-gate now _ event_id delivery_id event
              (rw (ensure_session_present now store p s f) g))
    ]

pub record_delivery-is_held :
    (now : String) (store : Store) (provider session_id event_id delivery_id event : String)
    → is_held store (trim_space provider) (trim_space session_id) ≡ true
    → is_held
        (record_delivery now store provider session_id event_id delivery_id event).1
        (trim_space provider)
        (trim_space session_id)
      ≡ true
unfolding record_delivery
record_delivery-is_held now store provider session_id event_id delivery_id event h =
    record_trimmed-is_held now store _ _ _ delivery_id event h

finish-gate :
    (event_now now : String) (x : SessionState) (e : EventRecord) (event_id status : String)
    → (gate (finish event_now now x e event_id status)).0 ≡ false
unfolding gate finish
finish-gate event_now now x e event_id status = elim (Bool-cases (status == failed)) [
  | inl h ↦ rw h
  | inr h ↦ rw h
]

-- The calls that may release a held session: those that resume it, and those that end an event.
abbrev pub releases : Call → Bool
releases (completes event_now now p s event_id status) = true
releases (resumes now p s) = true
releases _ = false

with_status-matches :
    (status now : String) (store : Store) (p s reason : String)
    → matches p s (with_status status now store p s reason) ≡ true
unfolding with_status
with_status-matches status now store p s reason = ensure_session-matches now store p s

-- A pause holds the session.
pub pause-is_held :
    (now : String) (store : Store) (p s reason : String)
    → is_held (pause now store p s reason).1 p s ≡ true
unfolding pause
pause-is_held now store p s reason =
    let y = with_status paused now store p s reason in
    rw (get-write_session_self store p s y (with_status-matches paused now store p s reason), gated)
      (unfold gate with_status in refl)

-- A call at the key of a held session that does not release it.
step-is_held_self :
    (c : Call) (store : Store)
    → releases c ≡ false
    → is_held store (target c).0 (target c).1 ≡ true
    → is_held (step c store) (target c).0 (target c).1 ≡ true
unfolding step
step-is_held_self (delivers now p s event_id delivery_id event) store r h =
    unfold record_delivery in
    record_trimmed-is_held now store (trim_space p) (trim_space s) (trim_space event_id) delivery_id
      event h
step-is_held_self (completes event_now now p s event_id status) store r h = cc
step-is_held_self (pauses now p s reason) store r h = pause-is_held now store p s reason
step-is_held_self (crashes now p s reason) store r h =
    let y = with_status crashed now store p s reason in
    unfold mark_crashed in
    rw
      (get-write_session_self store p s y (with_status-matches crashed now store p s reason), gated)
      (unfold gate with_status in refl)
step-is_held_self (resumes now p s) store r h = cc
step-is_held_self (permits now p s permissions) store r h =
    let (x, f, g) = held_session store p s h in
    let y = record (ensure_session now store p s) { permissions = permissions } in
    unfold set_permissions in
    rw (get-write_session_self store p s y (ensure_session-matches now store p s), gated)
      (gate_of_lifecycle x _ (ap (λ y. y.lifecycle) (ensure_session_present now store p s f)) ∙ g)

step-is_held :
    (c : Call) (store : Store) (p s : String)
    → (releases c ≡ false) ⊎ IsOther (target c).0 (target c).1 p s
    → is_held store p s ≡ true
    → is_held (step c store) p s ≡ true
step-is_held c store p s (inr o) h = ap gated (get-step_other c store p s o) ∙ h
step-is_held c store p s (inl r) h = elim (key_cases (target c).0 (target c).1 p s) [
  | inl (e, f) ↦
      subst (λ q. is_held (step c store) q s ≡ true) e
        (subst (λ t. is_held (step c store) (target c).0 t ≡ true) f
          (step-is_held_self c store r (rw (e, f) h)))
  | inr o ↦ ap gated (get-step_other c store p s o) ∙ h
]

-- A held session stays held through any history of calls in which no call resumes that session
-- or ends an event of it: through deliveries, pauses, crashes, changes of its permissions, and
-- every call that is about another session.
pub run-is_held :
    (cs : List Call) (store : Store) (p s : String)
    → All (λ c. (releases c ≡ false) ⊎ IsOther (target c).0 (target c).1 p s) cs
    → is_held store p s ≡ true
    → is_held (run cs store) p s ≡ true
unfolding run
run-is_held [] store p s a h = h
run-is_held (c ∷ cs) store p s a h =
    run-is_held cs (step c store) p s a.1 (step-is_held c store p s a.0 h)

-- Ending an event releases its session even if it was paused or crashed meanwhile: after a
-- `CompleteEvent` that succeeds the session is not held.
pub complete_event-is_held :
    (event_now now : String) (store : Store) (p s event_id status : String) {x : SessionState}
    → (complete_event event_now now store p s event_id status).0 ≡ ok x
    → is_held (complete_event event_now now store p s event_id status).1 p s ≡ false
complete_event-is_held event_now now store p s event_id status h =
    elim (complete_cases event_now now store p s event_id status) [
      | inl (e, r) ↦ absurd (ground (arith, r))
      | inr (x, e, f, g, st, r) ↦
          let y = finish event_now now x e event_id status in
          rw
            (
              r,
              get-write_session_self store p s y (unfold finish in get-matches store p s f),
              gated,
            )
            (finish-gate event_now now x e event_id status)
    ]
