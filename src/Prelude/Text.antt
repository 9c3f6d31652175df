-- ===== src/Prelude/Text.antt =====
-- Texts: parts and white space.
use Prim.Native.Char.{code}
use Prim.Native.Nat.{ℕ, zero, suc}
use Prim.Native.String.{String}
use mathlib.Core.Bool.{Bool, true, false, ◌&&◌, ◌||◌}
use kase_ai.Prelude.Tests.{leb, nat_beq, if◌then◌else◌}

-- `slice(n)`, in code points.
abbrev pub drop_chars : ℕ → String → String
drop_chars zero s = s
drop_chars (suc n) String.[] = ""
drop_chars (suc n) (String.◌∷◌ c s) = drop_chars n s

abbrev pub is_empty_text : String → Bool
is_empty_text String.[] = true
is_empty_text (String.◌∷◌ c s) = false

-- The white space and line ends that `trim` removes.
abbrev pub is_white : ℕ → Bool
is_white n =
    (leb 9 n && leb n 13)
    || nat_beq n 32
    || nat_beq n 160
    || nat_beq n 5_760
    || (leb 8_192 n && leb n 8_202)
    || nat_beq n 8_232
    || nat_beq n 8_233
    || nat_beq n 8_239
    || nat_beq n 8_287
    || nat_beq n 12_288
    || nat_beq n 65_279

abbrev pub trim_start : String → String
trim_start String.[] = ""
trim_start (String.◌∷◌ c s) =
    let rest = trim_start s in if is_white (code c) then rest else String.◌∷◌ c s

abbrev pub trim_end : String → String
trim_end String.[] = ""
trim_end (String.◌∷◌ c s) =
    let rest = trim_end s in
    if is_empty_text rest && is_white (code c) then "" else String.◌∷◌ c rest

abbrev pub trim : String → String
trim s = trim_end (trim_start s)
