-- ===== src/Agents/Tidy.antt =====
-- `tidy` of crates/sniff-core/src/agents.rs.
pub mod Fixed
use Prim.Native.Char.{Char, code}
use sniff_css.Prelude.{ℕ, String, Bool, ◌&&◌, leb, ◌==◌, if◌then◌else◌, str_eq, saturating_add}

abbrev pub is_newline : Char → Bool
is_newline c = code c == 10

-- the loop over the characters: of a run of line ends two stay
unfoldable pub collapse_newlines : ℕ → String → String
collapse_newlines pending String.[] = String.[]
collapse_newlines pending (String.◌∷◌ c s) =
    let run = collapse_newlines (saturating_add pending 1) s in
    let rest = collapse_newlines 0 s in
    if is_newline c
    then if leb (saturating_add pending 1) 2 then String.◌∷◌ c run else run
    else String.◌∷◌ c rest

-- `while out.ends_with("\\n\\n") { out.pop(); }`
unfoldable pub pop_newlines : String → String
pop_newlines String.[] = String.[]
pop_newlines (String.◌∷◌ c s) =
    let rest = pop_newlines s in
    if is_newline c && str_eq rest "\n" then rest else String.◌∷◌ c rest

-- a line end behind the last line
unfoldable pub end_line : String → String
end_line String.[] = String.[]
end_line (String.◌∷◌ c String.[]) =
    if is_newline c then String.◌∷◌ c String.[] else String.◌∷◌ c "\n"
end_line (String.◌∷◌ c (String.◌∷◌ d s)) = String.◌∷◌ c (end_line (String.◌∷◌ d s))

unfoldable pub tidy : String → String
unfolding collapse_newlines pop_newlines end_line
tidy text = end_line (pop_newlines (collapse_newlines 0 text))
