-- ===== src/Store/Files.antt =====
-- `SnapshotStore::save`, `save_bytes` and `list` of crates/sniff-css-mcp/src/store.rs, over a file
-- system in which every operation may fail.
pub mod Atomic
use Prim.Native.String.{◌++◌ as str_append}
use sniff_css.Prelude.{
  ℕ, zero, suc, String, Bool, true, false, not, Option, none, some, ◌&&◌, [], ◌∷◌, if◌then◌else◌,
  is_some,
}
use sniff_css.Naming.Slugs.{domain_of, truncate, snapshot_file_name_at}
use sniff_css.Store.Paths.{
  PathBuf, Component, normal, components, join, path_eq, resolve, parent, StoreError, no_parent,
  io_error, StoreResult, ok, err,
}

-- the content of the files
abbrev pub Files : Type 0
Files = PathBuf → Option String

abbrev pub put : Files → PathBuf → Option String → Files
put fs p o q = if path_eq p q then o else fs q

-- Which operations succeed. A write that fails leaves as many characters of the
-- content as it says.
pub record Faults : Type 0 where
  pub root_created : Bool
  pub ignore_written : Option ℕ
  pub parent_created : Bool
  pub temp_created : Bool
  pub written : Option ℕ
  pub synced : Bool
  pub renamed : Bool

-- the files, and what is returned
pub record Saved : Type 0 where
  pub files : Files
  pub result : StoreResult PathBuf

-- `ensure_gitignored`
abbrev pub ignore_path : PathBuf → PathBuf
ignore_path root = join root (normal ".gitignore" ∷ [])

-- what a write leaves
abbrev pub left : Option ℕ → String → String
left none content = content
left (some n) content = truncate n content

abbrev pub ignored : Faults → PathBuf → Files → Files
ignored f root fs =
    if is_some (fs (ignore_path root))
    then fs
    else put fs (ignore_path root) (some (left f.ignore_written "*\n"))

abbrev pub ensure_gitignored : Faults → PathBuf → Files → (Files × Bool)
ensure_gitignored f root fs =
    if f.root_created
    then (
      ignored f root fs,
      if is_some (fs (ignore_path root)) then true else not (is_some f.ignore_written),
    )
    else (fs, false)

abbrev pub renaming : Faults → PathBuf → PathBuf → PathBuf → String → Files → Saved
renaming f rel abs temp content fs =
    if f.renamed
    then record { files = put (put fs abs (some content)) temp none; result = ok rel }
    else record { files = fs; result = err io_error }

-- the temporary file is created, written and synced, and takes the place of the file
abbrev pub writing : Faults → PathBuf → PathBuf → PathBuf → String → Files → Saved
writing f rel abs temp content fs =
    if not (is_some f.written) && f.synced
    then renaming f rel abs temp content (put fs temp (some content))
    else record { files = put fs temp (some (left f.written content)); result = err io_error }

abbrev pub replacing : Faults → PathBuf → PathBuf → PathBuf → String → Files → Saved
replacing f rel abs temp content fs =
    if f.parent_created
    then if f.temp_created
      then writing f rel abs temp content fs
      else record { files = fs; result = err io_error }
    else record { files = fs; result = err io_error }

abbrev pub temp_name : String → String
temp_name name = str_append "." (str_append name ".tmp")

abbrev pub save_in : Faults → PathBuf → PathBuf → String → String → Files → Option PathBuf → Saved
save_in f rel abs name content fs none = record { files = fs; result = err no_parent }
save_in f rel abs name content fs (some dir) =
    replacing f rel abs (join dir (components (temp_name name))) content fs

abbrev pub save_at : Faults → PathBuf → String → String → Files → StoreResult PathBuf → Saved
save_at f rel name content fs (err e) = record { files = fs; result = err e }
save_at f rel name content fs (ok abs) = save_in f rel abs name content fs (parent abs)

abbrev pub save_ready : Faults → PathBuf → String → String → String → Files → Bool → Saved
save_ready f root domain name content fs false = record { files = fs; result = err io_error }
save_ready f root domain name content fs true =
    let rel = join (components domain) (components name) in
    save_at f rel name content fs (resolve root rel)

-- `save` with the extension `jsonl`, `save_bytes` with another, of a page at a time
unfoldable pub save : Faults → PathBuf → String → String → String → String → String → Files → Saved
unfolding domain_of snapshot_file_name_at resolve components truncate
save f root url selector ext stamp content fs =
    let (ready, is_ready) = ensure_gitignored f root fs in
    save_ready f root (domain_of url) (snapshot_file_name_at url selector ext stamp) content ready
      is_ready
