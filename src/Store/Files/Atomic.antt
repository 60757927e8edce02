-- ===== src/Store/Files/Atomic.antt =====
-- Saving a snapshot is atomic: the file is as before, or it is the new one.
use sniff_css.Prelude.{◌≡◌, String, Bool, true, false, Option, none, some, [], arith}
use sniff_css.Naming.Slugs.{domain_of, snapshot_file_name_at}
use sniff_css.Store.Paths.{PathBuf, components, join, path_eq, StoreResult, ok, err}
use sniff_css.Store.Files.{Files, put, Faults, Saved, writing, temp_name}

abbrev pub is_ok : {A : Type 0} → StoreResult A → Bool
is_ok (ok a) = true
is_ok (err e) = false

-- the specification: all of the content at once, or nothing
abbrev pub stored : Bool → PathBuf → String → Files → Files
stored true abs content fs = put fs abs (some content)
stored false abs content fs = fs

-- two states of the files agree at a place
abbrev Refines : PathBuf → Files → PathBuf → String → Saved → Type 0
Refines q fs abs content s = s.files q ≡ stored (is_ok s.result) abs content fs q

writing-Refines :
    (f : Faults) (rel abs temp : PathBuf) (content : String) (fs : Files) (q : PathBuf)
    → path_eq temp q ≡ false
    → Refines q fs abs content (writing f rel abs temp content fs)
writing-Refines f rel abs temp content fs q h = ground (arith, h)

-- the temporary file beside a file
abbrev pub temp_in : String → Option PathBuf → PathBuf
temp_in name none = []
temp_in name (some dir) = join dir (components (temp_name name))

-- where a snapshot is stored
abbrev pub snapshot_path : PathBuf → String → String → String → String → PathBuf
snapshot_path root url selector ext stamp =
    join root (
      join (components (domain_of url)) (components (snapshot_file_name_at url selector ext stamp)))
