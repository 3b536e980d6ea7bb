-- ===== src/Base/Utf8.antt =====
-- utf8.Valid: the texts that are well-formed UTF-8, read byte by byte.
pub mod Prefix
use Prim.Native.Nat.{ℕ, zero, suc}
use mathlib.Core.Bool.{Bool, true, false, ◌&&◌}
use mathlib.Core.Option.{Option, none, some}
use mathlib.Core.List.{[], ◌∷◌}
use mockingo_agent.Base.Tests.{if◌then◌else◌, ◌==◌, leb}
use mockingo_agent.Base.Strings.{Bytes}

-- What a byte demands that begins a character: how many bytes follow, and the range of the next.
unfoldable pub lead_byte : ℕ → Option (ℕ × ℕ × ℕ)
lead_byte b =
    if leb b 0x7f
    then some (0, 0x80, 0xbf)
    else if leb 0xc2 b && leb b 0xdf
    then some (1, 0x80, 0xbf)
    else if b == 0xe0
    then some (2, 0xa0, 0xbf)
    else if b == 0xed
    then some (2, 0x80, 0x9f)
    else if leb 0xe1 b && leb b 0xef
    then some (2, 0x80, 0xbf)
    else if b == 0xf0
    then some (3, 0x90, 0xbf)
    else if leb 0xf1 b && leb b 0xf3
    then some (3, 0x80, 0xbf)
    else if b == 0xf4
    then some (3, 0x80, 0x8f)
    else none

-- With `k` bytes of a character still to come, the next of them between `lo` and `hi`.
unfoldable pub valid_utf8_from : ℕ → ℕ → ℕ → Bytes → Bool
valid_utf8_from zero lo hi [] = true
valid_utf8_from (suc k) lo hi [] = false
valid_utf8_from zero lo hi (b ∷ s) = elim (lead_byte b) [
  | none ↦ false
  | some (k, l, h) ↦ valid_utf8_from k l h s
]
valid_utf8_from (suc k) lo hi (b ∷ s) = elim (leb lo b && leb b hi) [
  | true ↦ valid_utf8_from k 0x80 0xbf s
  | false ↦ false
]

abbrev pub valid_utf8 : Bytes → Bool
valid_utf8 = valid_utf8_from 0 0x80 0xbf
