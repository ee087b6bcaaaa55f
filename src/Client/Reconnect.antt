-- ===== src/Client/Reconnect.antt =====
-- internal/client/reconnect.go: `runWithReconnect`. A `time.Duration` is a 64-bit word of
-- nanoseconds, with its sign in the highest bit; `delay *= 2` wraps around. The attempts to connect,
-- and when the context ends, are a list.
pub mod Delays
mod Tests
use awp.Common.{
  ℕ, ◌+◌, ◌*◌, ◌%◌, ◌^◌, Bool, true, false, Option, some, none, List, [], ◌∷◌, ltb, ◌&&◌, ◌||◌, not,
  if◌then◌else◌,
}

abbrev pub word : ℕ
word = 2 ^ 64

abbrev pub half : ℕ
half = 2 ^ 63

-- `a < b` of two words with a sign
abbrev pub signed_lt : ℕ → ℕ → Bool
signed_lt a b = ltb ((a + half) % word) ((b + half) % word)

abbrev pub second : ℕ
second = 1000000000

pub record ReconnectPolicy : Type 0 where
  pub initial_delay : ℕ
  pub max_delay : ℕ

-- The defaults. `InitialDelay <= 0` is `!(0 < InitialDelay)`.
unfoldable pub with_defaults : ReconnectPolicy → ReconnectPolicy
with_defaults p =
    let initial = if not (signed_lt 0 p.initial_delay) then second else p.initial_delay in
    record {
      initial_delay = initial;
      max_delay = if signed_lt p.max_delay initial then 30 * second else p.max_delay;
    }

-- The delay after one more wait.
unfoldable pub next_delay : ℕ → ℕ → ℕ
next_delay max delay =
    if signed_lt delay max
    then (let twice = (delay * 2) % word in if signed_lt max twice then max else twice)
    else delay

-- One attempt: whether `connect` returns an error, whether the context has ended by then, and
-- whether it ends during the wait.
pub record Attempt : Type 0 where
  pub is_error : Bool
  pub is_cancelled : Bool
  pub is_cancelled_waiting : Bool

pub data Ending : Type 0 where
  returns_nil returns_context_error still_running : Ending

-- The loop on the attempts: the delays that were announced and waited for, and how it ended.
unfoldable pub reconnect : Bool → ℕ → ℕ → List Attempt → List ℕ × Ending
reconnect once max delay [] = ([], still_running)
reconnect once max delay (a ∷ attempts) =
    let (waits, ending) = reconnect once max (next_delay max delay) attempts in
    if a.is_cancelled
    then ([], returns_context_error)
    else if once && not a.is_error
    then ([], returns_nil)
    else if a.is_cancelled_waiting
    then (delay ∷ [], returns_context_error)
    else (delay ∷ waits, ending)

-- `runWithReconnect`
unfoldable pub run_with_reconnect : Bool → ReconnectPolicy → List Attempt → List ℕ × Ending
run_with_reconnect once policy attempts =
    let p = with_defaults policy in reconnect once p.max_delay p.initial_delay attempts
