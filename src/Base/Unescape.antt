-- ===== src/Base/Unescape.antt =====
-- url.QueryUnescape: `%XX` is a byte in hexadecimal, `+` a space; any other use of `%` is an error.
use Prim.Native.Nat.{ℕ, ◌+◌, ◌-◌, ◌*◌}
use mathlib.Core.Bool.{◌&&◌}
use mathlib.Core.Option.{Option, none, some}
use mathlib.Core.List.{[], ◌∷◌, ◌++◌}
use mockingo_agent.Base.Tests.{if◌then◌else◌, ◌==◌, leb}
use mockingo_agent.Base.Strings.{Bytes, is_digit}

-- Where the reader stands: outside an escape, at its first digit, or at its second.
pub data Mode : Type 0 where
  plain first_digit : Mode
  second_digit : ℕ → Mode

abbrev pub hex_digit : ℕ → Option ℕ
hex_digit c =
    if is_digit c
    then some (c - b'0')
    else if leb b'a' c && leb c b'f'
    then some (c - b'a' + 10)
    else if leb b'A' c && leb c b'F'
    then some (c - b'A' + 10)
    else none

-- The next mode and what is put out.
abbrev pub unescape_byte : Mode → ℕ → Option (Mode × Bytes)
unescape_byte plain c =
    if c == b'%'
    then some (first_digit, [])
    else if c == b'+'
    then some (plain, 32 ∷ [])
    else some (plain, c ∷ [])
unescape_byte first_digit c = elim (hex_digit c) [
  | none ↦ none
  | some v ↦ some (second_digit v, [])
]
unescape_byte (second_digit u) c = elim (hex_digit c) [
  | none ↦ none
  | some v ↦ some (plain, (u * 16 + v) ∷ [])
]

abbrev pub after : Bytes → Option Bytes → Option Bytes
after out none = none
after out (some s) = some (out ++ s)

unfoldable pub unescape_from : Mode → Bytes → Option Bytes
unescape_from plain [] = some []
unescape_from first_digit [] = none
unescape_from (second_digit u) [] = none
unescape_from m (c ∷ s) = elim (unescape_byte m c) [
  | none ↦ none
  | some (m', out) ↦ after out (unescape_from m' s)
]

abbrev pub query_unescape : Bytes → Option Bytes
query_unescape = unescape_from plain
