-- ===== src/Prelude/Lines.antt =====
-- `str::lines`.
use Prim.Native.Char.{Char, code}
use Prim.Native.String.{String}
use mathlib.Core.Bool.{◌&&◌}
use mathlib.Core.List.{List, [], ◌∷◌}
use sniff_css.Prelude.Tests.{◌==◌, if◌then◌else◌}

abbrev push_front : Char → List String → List String
push_front c [] = String.◌∷◌ c String.[] ∷ []
push_front c (l ∷ ls) = String.◌∷◌ c l ∷ ls

-- The lines end at `\n` or `\r\n`; what follows the last end is a line unless it is empty.
unfoldable pub lines : String → List String
lines String.[] = []
lines (String.◌∷◌ c String.[]) = if code c == b'\n' then "" ∷ [] else push_front c []
lines (String.◌∷◌ c (String.◌∷◌ d s)) =
    let rest = lines (String.◌∷◌ d s) in
    if code c == b'\n'
    then "" ∷ rest
    else if code c == b'\r' && code d == b'\n'
    then rest
    else push_front c rest
