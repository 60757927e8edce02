-- ===== src/Agents.antt =====
-- crates/sniff-core/src/agents.rs: the managed block in AGENTS.md.
pub mod Tidy
use Prim.Native.Char.{Char, code}
use Prim.Native.String.{◌++◌ as str_append}
use sniff_css.Prelude.{
  ℕ, zero, suc, ◌+◌, ◌*◌, ◌-◌, String, Bool, true, false, not, ◌&&◌, ◌||◌, Option, none, some, List,
  [], ◌∷◌, if◌then◌else◌, str_eq, leb, ltb, is_empty_str, trim, trim_start, lines,
}
use sniff_css.Contrast.Strings.{strip_prefix}
use Tidy.{is_newline, tidy}

abbrev pub marker_begin : String
marker_begin = "<!-- sniff:start -->"

abbrev pub marker_end : String
marker_end = "<!-- sniff:end -->"

abbrev pub version_prefix : String
version_prefix = "<!-- sniff:version:"

-- the lines of the block
abbrev pub block_lines : List String
block_lines =
    "<!-- sniff:start -->" ∷ "<!-- sniff:version: 1 -->" ∷ "# sniff — computed styles for LLMs" ∷ ""
    ∷ "`sniff capture` is the source of truth for layout/style — never guess CSS, capture it."
    ∷ "Cycle: `sniff capture` → `sniff check` → `sniff diff`; the AI reads only the delta." ∷ ""
    ∷ "- Capture: `sniff capture <URL> -s <CSS> [--depth N] [--output summary|jsonl|json]`"
    ∷ "(default `summary`, token-lean). Diff/check need `--no-summary` JSONL snapshots."
    ∷ "- Diff: `sniff diff <BASE> <HEAD> [--tolerance 0.5] [--stats-only]` (deterministic, offline)."
    ∷ "- Checks: `sniff check <SNAP> [--rules] [--uniform]` (contrast, target size, focus, alt)."
    ∷ "- Batch/params: `--params '<json>'` (one op) or `--batch file.jsonl` (one op per line);"
    ∷ "`-` reads stdin, so `sniff capture … --no-summary | sniff check -` works."
    ∷ "- Protocol: `sniff prime` (`--long` = full); `sniff self` = setup/completions/upgrade." ∷ ""
    ∷ "Common cases:"
    ∷ "- Self-signed TLS: add `--ignore-certificate-errors` (or set `SNIFF_IGNORE_CERTIFICATE_ERRORS=1`)."
    ∷ "- Auth: `--header \"Name: Value\"` on every request; persist a login with `--storage-state FILE`"
    ∷ "(write it once with `--save-storage-state FILE`)."
    ∷ "- Action-only UI (modal/dropdown): `--click SEL`, or ordered `--action \"click:SEL:5000\"`."
    ∷ "- Flutter/Dart app: `flutter://<device>` as `<URL>` + `--project DIR --depth N` (debug build only)."
    ∷ "- Persist a snapshot: `--persist` writes `sniff/[domain]/[UTC]-[path]-[selector].jsonl`"
    ∷ "(or `--persist PATH` for an explicit file)." ∷ ""
    ∷ "Contract: stdout = data (JSONL), stderr = logs; `--json` = {success, command, data?, error{code,message,retryable}, warnings?}."
    ∷ "Exit: 2 invalid, 3 not_found, 5 io, 70 internal." ∷ "<!-- sniff:end -->" ∷ []

abbrev unlines : List String → String
unlines [] = ""
unlines (l ∷ ls) = str_append l (str_append "\n" (unlines ls))

abbrev pub protocol_block : String
protocol_block = unlines block_lines

abbrev is_ascii_digit : Char → Bool
is_ascii_digit c = leb b'0' (code c) && leb (code c) b'9'

-- the number that leading digits make, behind the value `n`
unfoldable pub number_from : ℕ → String → ℕ
number_from n String.[] = n
number_from n (String.◌∷◌ c s) =
    let rest = number_from (n * 10 + (code c - b'0')) s in if is_ascii_digit c then rest else n

-- `digits.parse::<u32>()` of the leading digits
abbrev pub version_of : String → Option ℕ
version_of String.[] = none
version_of (String.◌∷◌ c s) =
    if is_ascii_digit c
    then if ltb (number_from 0 (String.◌∷◌ c s)) 4294967296
      then some (number_from 0 (String.◌∷◌ c s))
      else none
    else none

abbrev version_behind : Option String → Option ℕ
version_behind none = none
version_behind (some rest) = version_of (trim_start rest)

unfoldable pub version_in_lines : List String → Option ℕ
unfolding strip_prefix trim trim_start number_from
version_in_lines [] = none
version_in_lines (l ∷ ls) = elim (version_behind (strip_prefix version_prefix (trim l))) [
  | some v ↦ some v
  | none ↦ version_in_lines ls
]

unfoldable pub version_in : String → Option ℕ
unfolding version_in_lines lines
version_in text = version_in_lines (lines text)

abbrev onto_line : Char → List String → List String
onto_line c [] = String.◌∷◌ c String.[] ∷ []
onto_line c (l ∷ ls) = String.◌∷◌ c l ∷ ls

-- `text.split_inclusive('\\n')`
unfoldable pub split_inclusive : String → List String
split_inclusive String.[] = []
split_inclusive (String.◌∷◌ c s) =
    let rest = split_inclusive s in
    if is_newline c then String.◌∷◌ c String.[] ∷ rest else onto_line c rest

-- the variables of the loop
pub record Scan : Type 0 where
  pub out : String
  pub in_block : Bool
  pub found_begin : Bool

abbrev push_block : Option String → String → String
push_block none out = out
push_block (some block) out = str_append out block

-- One round: the line is the marker `begin` or `end`, stands in the block, or is kept. `trim` takes
-- the line end off as well.
unfoldable pub scan_line : String → String → Option String → String → Scan → Scan
unfolding trim
scan_line begin end block l s =
    if not s.in_block && str_eq (trim l) begin
    then record { out = push_block block s.out; in_block = true; found_begin = true }
    else if s.in_block
    then record s { in_block = not (str_eq (trim l) end) }
    else record s { out = str_append s.out l }

unfoldable pub scan : String → String → Option String → List String → Scan → Scan
unfolding scan_line
scan begin end block [] s = s
scan begin end block (l ∷ ls) s = scan begin end block ls (scan_line begin end block l s)

-- `out.ends_with(...)` of one and of two line ends
abbrev pub ends_line : String → Bool
ends_line String.[] = false
ends_line (String.◌∷◌ c String.[]) = is_newline c
ends_line (String.◌∷◌ c (String.◌∷◌ d s)) = ends_line (String.◌∷◌ d s)

abbrev pub ends_blank : String → Bool
ends_blank String.[] = false
ends_blank (String.◌∷◌ c s) = (is_newline c && str_eq s "\n") || ends_blank s

abbrev pub end_with : (String → Bool) → String → String
end_with f out = if f out then out else str_append out "\n"

abbrev pub append_block : Scan → Option String → String
append_block s none = s.out
append_block s (some block) =
    if s.found_begin
    then s.out
    else str_append
        (if is_empty_str s.out then s.out else end_with ends_blank (end_with ends_line s.out)) block

unfoldable pub upsert : String → String → String → Option String → String
unfolding scan split_inclusive tidy
upsert text begin end block =
    let start : Scan = record { out = ""; in_block = false; found_begin = false } in
    tidy (append_block (scan begin end block (split_inclusive text) start) block)

pub data State : Type 0 where
  created updated unchanged : State

abbrev text_of : Option String → String
text_of none = ""
text_of (some t) = t

-- what `apply` writes if it writes, and what it returns, when no operation on the files fails
unfoldable pub apply : Bool → Option String → Option String × State
unfolding upsert
apply force original =
    let text = text_of original in
    let result =
      if force then protocol_block else upsert text marker_begin marker_end (some protocol_block) in
    let changed = not (str_eq result text) in
    (
      if changed then some result else none,
      elim original [ none ↦ created | some t ↦ if changed then updated else unchanged ],
    )
