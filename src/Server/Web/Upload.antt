-- ===== src/Server/Web/Upload.antt =====
-- server/web/upload_handler.go: the folder of an upload and the handler that writes the files. `D` is
-- the disk of the server.
pub mod Folder
pub mod Names
pub mod Confined
use Prim.Native.Char.{code}
use tiny_file_watcher.Prelude.{
  ℕ, String, Bool, true, false, not, ◌||◌, Option, none, some, List, [], ◌∷◌, ◌==◌, nat_eq, first,
  strip_prefix, if◌then◌else◌,
}
use tiny_file_watcher.Internal.FilePath.{join, base}
use tiny_file_watcher.Server.Outcome.{
  Result, ok, err, Exec, Code, pure, fail, refuse, lift, or_status, ◌>>=◌, ◌>>◌,
}
use tiny_file_watcher.Server.Watcher.Service.{WatcherMessage}

-- strings.ContainsAny(s, `/\`)
unfoldable pub contains_slash : String → Bool
contains_slash String.[] = false
contains_slash (String.◌∷◌ c s) = nat_eq (code c) b'/' || nat_eq (code c) b'\\' || contains_slash s

abbrev has_prefix : Option String → Bool
has_prefix none = false
has_prefix (some rest) = true

-- `none` is the error of an invalid folder
unfoldable pub resolve_upload_dir : String → String → Option String
unfolding contains_slash
resolve_upload_dir source_path folder =
    if folder == ""
    then some source_path
    else if contains_slash folder || folder == ".."
    then none
    else if has_prefix (strip_prefix source_path (join source_path folder))
    then some (join source_path folder)
    else none

-- one file of the form: its name, and its content if it can be opened, with whether the whole of
-- it can be read
pub record FileHeader : Type 0 where
  pub filename : String
  pub content : Option (String × Bool)

pub record Form : Type 0 where
  pub folder : String
  pub files : List FileHeader

-- the disk of the server: os.MkdirAll, os.Create and the writes to the file it opens
pub record Disk (D : Type 0) : Type 0 where
  pub mkdir_all : String → Exec (Unit {0}) D (Unit {0})
  pub create : String → Exec (Unit {0}) D (Unit {0})
  pub write : String → String → Exec (Unit {0}) D (Unit {0})

-- the HTTP status of an error
abbrev pub Status : Type 0
Status = ℕ

abbrev find_watcher : String → List WatcherMessage → Option WatcherMessage
find_watcher name ws = first (λ w. w.name == name) ws

module _ {D : Type 0} (disk : Disk D) where
  abbrev finish_copy : Bool → Exec Status D (Unit {0})
  finish_copy true = pure tt
  finish_copy false = fail 500

  unfoldable pub save_content : String → String → Option (String × Bool) → Exec Status D (Unit {0})
  save_content dest_dir filename none = fail 500
  save_content dest_dir filename (some (text, whole)) = do
    or_status 500 (disk.create (join dest_dir (base filename)))
    or_status 500 (disk.write (join dest_dir (base filename)) text)
    finish_copy whole

  -- the loop over the files: the names of those that are saved
  unfoldable pub save_files : String → List FileHeader → Exec Status D (List String)
  unfolding save_content
  save_files dest_dir [] = pure []
  save_files dest_dir (fh ∷ files) = do
    save_content dest_dir fh.filename fh.content
    saved ← save_files dest_dir files
    pure (fh.filename ∷ saved)

  abbrev some_or : {A : Type 0} → Status → Option A → Exec Status D A
  some_or status none = fail status
  some_or status (some a) = pure a

  abbrev no_files : List FileHeader → Bool
  no_files [] = true
  no_files (f ∷ fs) = false

  -- after ListWatchers: `form` is none if it cannot be parsed within 64 MB
  unfoldable pub handle_upload :
      Result Code (List WatcherMessage) → Option Form → String → Exec Status D (List String)
  unfolding resolve_upload_dir save_files
  handle_upload listed form name = do
    watchers ← or_status 500 (lift listed)
    wt ← some_or 404 (find_watcher name watchers)
    f ← some_or 400 form
    dest_dir ← some_or 400 (resolve_upload_dir wt.source_path f.folder)
    or_status 500 (disk.mkdir_all dest_dir)
    refuse (no_files f.files) 400
    save_files dest_dir f.files
