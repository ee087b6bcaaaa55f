-- ===== src/Files/Tokens.antt =====
-- internal/config/token.go: `SaveToken`. The call of the encoder is here the one of `WriteString`.
use Prim.Native.String.{◌++◌ as concat}
use awp.Common.{String, [], ◌∷◌, err, ◌==◌, if◌then◌else◌}
use awp.Common.Text.{trim_space}
use awp.Files.{Disk, Calls, empty_token, Trace, atomic_write}

-- What a token's file holds.
abbrev pub token_text : String → String
token_text token = concat (trim_space token) "\n"

-- `SaveToken`
unfoldable pub save_token : Calls → String → String → String → Disk → Trace
save_token calls path temp token disk =
    if trim_space token == ""
    then (err empty_token, disk ∷ [])
    else atomic_write calls path temp (token_text token) disk
