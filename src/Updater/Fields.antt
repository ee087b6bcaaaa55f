-- ===== src/Updater/Fields.antt =====
-- What internal/updater/updater.go uses of the packages `strings`, `bufio` and `encoding/hex`: cutting
-- and splitting a text, its fields and its lines, and hexadecimal digits.
use Prim.Native.Nat.{ℕ, zero, suc, ◌+◌}
use Prim.Native.Char.{Char, code, len_utf8}
use Prim.Native.String.{String, [], ◌∷◌}
use mathlib.Core.Option.{Option, none, some}
use mathlib.Core.List.{List, [] as empty, ◌∷◌ as cons}
use awp.Common.{Bool, true, false, eqb, ltb, leb, not, ◌&&◌, ◌||◌, ◌==◌, if◌then◌else◌}
use awp.Common.Text.{is_space}
use awp.Files.{Bytes, size_of}
use awp.Common.Split.{push}
unfoldable pub use awp.Common.Split.{split}

-- `strings.SplitN(s, sep, 2)`: what stands before the separator, and what stands behind it
unfoldable pub cut : ℕ → String → String × Option String
cut sep [] = ([], none)
cut sep (c ∷ s) =
    let (before, behind) = cut sep s in
    if eqb (code c) sep then ([], some s) else (c ∷ before, behind)

-- `strings.TrimPrefix(s, "v")`
unfoldable pub trim_v : String → String
trim_v [] = []
trim_v (c ∷ s) = if eqb (code c) 118 then s else c ∷ s

-- `strings.TrimPrefix(s, "*")`
unfoldable pub trim_star : String → String
trim_star [] = []
trim_star (c ∷ s) = if eqb (code c) 42 then s else c ∷ s

-- `strings.HasSuffix`
unfoldable pub has_suffix : String → String → Bool
has_suffix [] suffix = suffix == []
has_suffix (c ∷ s) suffix = (c ∷ s) == suffix || has_suffix s suffix

abbrev pub slash_before : Char → String → String
slash_before c [] = if eqb (code c) 47 then [] else c ∷ []
slash_before c (d ∷ t) = c ∷ d ∷ t

-- `strings.TrimRight(s, "/")`
unfoldable pub trim_slashes : String → String
trim_slashes [] = []
trim_slashes (c ∷ s) = slash_before c (trim_slashes s)

abbrev pub starts_field : String → Bool
starts_field [] = false
starts_field (c ∷ s) = not (is_space (code c))

-- `strings.Fields`
unfoldable pub fields : String → List String
fields [] = empty
fields (c ∷ s) =
    let rest = fields s in
    if is_space (code c) then rest else if starts_field s then push c rest else cons (c ∷ []) rest

-- `len` of a text: the bytes of its UTF-8
unfoldable pub byte_length : String → ℕ
byte_length [] = 0
byte_length (c ∷ s) = len_utf8 c + byte_length s

-- Without a carriage return at the end.
unfoldable pub drop_cr : Bytes → Bytes
drop_cr [] = []
drop_cr (c ∷ []) = if eqb (code c) 13 then [] else c ∷ []
drop_cr (c ∷ d ∷ s) = c ∷ drop_cr (d ∷ s)

-- The tokens of a `bufio.Scanner` on these lines: an empty last line is none, and a line that does
-- not fit its buffer of 64 KiB ends the scan.
unfoldable pub scan : List Bytes → List Bytes
scan empty = empty
scan (cons l empty) =
    if l == "" then empty else if ltb (size_of l) 65536 then cons (drop_cr l) empty else empty
scan (cons l (cons l' ls)) =
    let rest = scan (cons l' ls) in if ltb (size_of l) 65536 then cons (drop_cr l) rest else empty

-- The first bytes, `io.LimitReader`
unfoldable pub limited : ℕ → Bytes → Bytes
limited zero s = []
limited (suc n) [] = []
limited (suc n) (c ∷ s) = c ∷ limited n s

unfoldable pub lines : Bytes → List Bytes
lines text = scan (split 10 text)

abbrev pub is_hex_digit : ℕ → Bool
is_hex_digit c = (leb 48 c && leb c 57) || (leb 97 c && leb c 102) || (leb 65 c && leb c 70)

-- `hex.DecodeString` succeeds on a text of even length
unfoldable pub is_hex : String → Bool
is_hex [] = true
is_hex (c ∷ s) = is_hex_digit (code c) && is_hex s

abbrev pub lower_digit : Char → Char
lower_digit c =
    if eqb (code c) 65
    then "a"
    else if eqb (code c) 66
    then "b"
    else if eqb (code c) 67
    then "c"
    else if eqb (code c) 68
    then "d"
    else if eqb (code c) 69
    then "e"
    else if eqb (code c) 70
    then "f"
    else c

-- `strings.ToLower` of a hexadecimal text
unfoldable pub lower_hex : String → String
lower_hex [] = []
lower_hex (c ∷ s) = lower_digit c ∷ lower_hex s
