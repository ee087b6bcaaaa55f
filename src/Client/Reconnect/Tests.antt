-- ===== src/Client/Reconnect/Tests.antt =====
-- Runs of the reconnecting loop, and its theorem at a concrete one.
use awp.Common.{◌-◌, ◌*◌, ◌^◌, true, false, [], ◌∷◌, leb, if◌then◌else◌, ◌≡◌, refl, arith}
use awp.Client.Reconnect.{
  second, ReconnectPolicy, with_defaults, next_delay, Attempt, returns_nil, still_running,
  reconnect, run_with_reconnect,
}
use awp.Client.Reconnect.Delays.{min, doubled, run_with_reconnect-waits}

program : Unit {0}
unfolding with_defaults next_delay reconnect run_with_reconnect
program = tt

abbrev failing : Attempt
failing = record { is_error = true; is_cancelled = false; is_cancelled_waiting = false }

abbrev closing : Attempt
closing = record { is_error = false; is_cancelled = false; is_cancelled_waiting = false }

abbrev policy : ReconnectPolicy
policy = record { initial_delay = second; max_delay = 3 * second }

runs :
    (run_with_reconnect false policy (failing ∷ closing ∷ failing ∷ [])
      ≡ (second ∷ 2 * second ∷ 3 * second ∷ [], still_running))
    × (run_with_reconnect true policy (failing ∷ closing ∷ failing ∷ [])
        ≡ (second ∷ [], returns_nil))
    × (next_delay (2 ^ 63 - 1) (2 ^ 62) ≡ 2 ^ 63)
unfolding program
runs = (refl, refl, refl)

run_with_reconnect-waits_example :
    3 * second ≡ (if leb second (3 * second) then min (doubled second 2) (3 * second) else second)
unfolding program
run_with_reconnect-waits_example =
    run_with_reconnect-waits false policy (failing ∷ closing ∷ failing ∷ []) 2 (3 * second)
      (omega arith) (omega arith) refl
