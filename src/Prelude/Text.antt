-- ===== src/Prelude/Text.antt =====
-- std's operations on `str` that the program walks texts with.
use Prim.Native.Char.{Char, code}
use Prim.Native.Nat.{ℕ, ◌+◌, ◌-◌, ◌*◌}
use Prim.Native.String.{String}
use mathlib.Core.Bool.{Bool, true, false, ◌&&◌}
use mathlib.Core.List.{List, [], ◌∷◌}
use mathlib.Core.Option.{Option, none, some}
use latlng.Prelude.Key.{◌==◌, nat_key}
use latlng.Prelude.Tests.{leb, if◌then◌else◌, u64_max}

-- `trim_start_matches` of one character.
unfoldable pub trim_start_matches : ℕ → String → String
trim_start_matches c String.[] = String.[]
trim_start_matches c (String.◌∷◌ d s) =
    let rest = trim_start_matches c s in if code d == c then rest else String.◌∷◌ d s

abbrev pub cons_first : Char → List String → List String
cons_first d [] = String.◌∷◌ d String.[] ∷ []
cons_first d (w ∷ ws) = String.◌∷◌ d w ∷ ws

-- `split` at one character: never empty, and with empty pieces.
unfoldable pub split : ℕ → String → List String
split c String.[] = String.[] ∷ []
split c (String.◌∷◌ d s) =
    let rest = split c s in if code d == c then String.[] ∷ rest else cons_first d rest

abbrev pub is_empty : String → Bool
is_empty String.[] = true
is_empty (String.◌∷◌ d s) = false

unfoldable pub parse_digits : ℕ → String → Option ℕ
parse_digits n String.[] = if leb n u64_max then some n else none
parse_digits n (String.◌∷◌ d s) =
    let rest = parse_digits (n * 10 + (code d - 48)) s in
    if leb 48 (code d) && leb (code d) 57 then rest else none

-- `parse::<usize>`: decimal digits, one at least, behind an optional `+`.
unfoldable pub parse_usize : String → Option ℕ
unfolding parse_digits
parse_usize String.[] = none
parse_usize (String.◌∷◌ d String.[]) = parse_digits 0 (String.◌∷◌ d String.[])
parse_usize (String.◌∷◌ d (String.◌∷◌ e s)) =
    if code d == b'+'
    then parse_digits 0 (String.◌∷◌ e s)
    else parse_digits 0 (String.◌∷◌ d (String.◌∷◌ e s))
