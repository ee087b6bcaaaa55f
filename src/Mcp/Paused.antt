-- ===== src/Mcp/Paused.antt =====
-- internal/mcpserver/server.go and internal/cli/daemon.go: what `pauseSession` does to the deliveries
-- that the daemon handles afterwards.
use awp.Common.{
  String, true, false, Option, some, none, List, ok, ◌≡◌, ◌⊎◌, sym, ◌∙◌, ap, subst, arith, inl, inr,
  All, Option-cases, ok-injective, not,
}
use awp.Common.Text.{trim_space}
use awp.Permissions.{RequestedPermission, Authorization}
use awp.Sessions.{Binding}
use awp.Wake.Changes.{pause}
use awp.Wake.Gating.{is_held, releases, pause-is_held, run-is_held}
use awp.Wake.History.{Call, run}
use awp.Wake.Isolation.{target}
use awp.Wake.Keys.{IsOther}
use awp.Daemon.{Delivery, RunError, State, Times, Disks, Others, handle}
use awp.Daemon.Wakes.{handle-Wakes}
use awp.Mcp.{Machine, Io, Value, loads, saves}
use awp.Common.Steps.Rules.{fail_if-ok, next-ok, save-ok}
use awp.Mcp.Waking.{resolve_session, pause_session}
use awp.Mcp.Waking as Waking

pub pause_session-events :
    (absolute : String → Option String) (workspace : String) (io : Io) (p₀ s₀ reason p s : String)
    (m m' : Machine) (v : Value)
    → resolve_session workspace io.registry m.registry p₀ s₀ ≡ ok (p, s)
    → pause_session absolute workspace io p₀ s₀ reason m ≡ (ok v, m')
    → m'.events ≡ (pause io.first m.events p s reason).1
unfolding pause_session Waking.target
pause_session-events absolute workspace io p₀ s₀ reason p s m m' v r h₀ =
    let (t, e, h₁) = next-ok (resolve_session workspace io.registry m.registry p₀ s₀) _ h₀ in
    let (_, h₂) = fail_if-ok (not (loads io.events)) _ _ h₁ in
    let (_, h₃) = save-ok (saves io.events) _ _ _ h₂ in
    let same : t ≡ (p, s) = ok-injective (sym e ∙ r) in
    subst (λ (t : String × String). m'.events ≡ (pause io.first m.events t.0 t.1 reason).1) same
      (ground (arith, h₃))

-- An agent that pauses its session is left alone. After a call of pause_session that succeeds, for a
-- session that it resolves to whose two names have no blanks at their ends, and any history of calls
-- on the event store in which none resumes that session or ends an event of it, the daemon does not
-- run the adapter for a delivery to that session, whatever the grants, the files and the adapter
-- are.
pub pause_session-quiet :
    (absolute : String → Option String) (workspace : String) (io : Io) (p₀ s₀ reason p s : String)
    (m m' : Machine) (v : Value) (cs : List Call) (permission_hash : RequestedPermission → String)
    (t : Times) (disks : Disks) (others : Others) (adapter : Authorization → Option RunError)
    (handlers : String → Option Binding) (d : Delivery) (st : State)
    → resolve_session workspace io.registry m.registry p₀ s₀ ≡ ok (p, s)
    → pause_session absolute workspace io p₀ s₀ reason m ≡ (ok v, m')
    → trim_space p ≡ p
    → trim_space s ≡ s
    → All (λ c. (releases c ≡ false) ⊎ IsOther (target c).0 (target c).1 p s) cs
    → st.events ≡ run cs m'.events
    → d.target ≡ some s
    → (handle permission_hash p t disks others adapter handlers d st).0.woken ≡ none
pause_session-quiet absolute workspace io p₀ s₀ reason p s m m' v cs permission_hash t disks others
      adapter handlers d st r h tp ts a e k =
    elim (Option-cases (handle permission_hash p t disks others adapter handlers d st).0.woken) [
      | inl none_woken ↦ none_woken
      | inr (w, woken) ↦
          let paused : is_held m'.events p s ≡ true =
            rw (pause_session-events absolute workspace io p₀ s₀ reason p s m m' v r h)
              (pause-is_held io.first m.events p s reason) in
          let held : is_held st.events p s ≡ true = rw e (run-is_held cs m'.events p s a paused) in
          let rests =
            (handle-Wakes permission_hash p t disks others adapter handlers d st w woken).0 in
          let same : rests.session_id ≡ s = ground (arith, rests.target, k) in
          let free : is_held st.events p s ≡ false =
            subst (λ q. is_held st.events q s ≡ false) tp
              (subst (λ q. is_held st.events (trim_space p) q ≡ false) (ap trim_space same ∙ ts)
                rests.not_held) in
          absurd (cc (held, free))
    ]
