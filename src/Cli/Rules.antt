-- ===== src/Cli/Rules.antt =====
-- What a command's result without an error says of the files that it has loaded.
use awp.Common.{ok, ◌≡◌, not}
use awp.Common.Steps.{◌>>=◌}
use awp.Common.Steps.Rules.{fail_if-then-ok}
use awp.Permissions.{Store}
use awp.Sessions.{Registry}
use awp.Mcp.{Machine, loads}
use awp.Wake as Wake
use awp.Cli.{Io, Command, load_registry, load_permissions, load_events}

module _ {B : Type 0} (io : Io) (m : Machine) {m' : Machine} {b : B} where
  pub load_registry-ok :
      (f : Registry → Command B)
      → (load_registry io >>= f) m ≡ (ok b, m')
      → f m.registry m ≡ (ok b, m')
  load_registry-ok f h₀ =
      let (_, h₁) = fail_if-then-ok m (not io.has_registry_path) _ _ f h₀ in
      let (_, h₂) = fail_if-then-ok m (not (loads io.files.registry)) _ _ f h₁ in h₂

  pub load_permissions-ok :
      (f : Store → Command B)
      → (load_permissions io >>= f) m ≡ (ok b, m')
      → f m.permissions m ≡ (ok b, m')
  load_permissions-ok f h₀ =
      let (_, h₁) = fail_if-then-ok m (not io.has_permissions_path) _ _ f h₀ in
      let (_, h₂) = fail_if-then-ok m (not (loads io.files.permissions)) _ _ f h₁ in h₂

  pub load_events-ok :
      (f : Wake.Store → Command B)
      → (load_events io >>= f) m ≡ (ok b, m')
      → f m.events m ≡ (ok b, m')
  load_events-ok f h₀ =
      let (_, h₁) = fail_if-then-ok m (not io.files.has_config_path) _ _ f h₀ in
      let (_, h₂) = fail_if-then-ok m (not io.has_events_path) _ _ f h₁ in
      let (_, h₃) = fail_if-then-ok m (not (loads io.files.events)) _ _ f h₂ in h₃
