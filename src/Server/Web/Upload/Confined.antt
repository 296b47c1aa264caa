-- ===== src/Server/Web/Upload/Confined.antt =====
-- server/web/upload_handler.go: where an upload writes.
use tiny_file_watcher.Prelude.{◌≡◌, String, List, [], ◌∷◌, ◌++◌, ◌⊎◌}
use tiny_file_watcher.Internal.FilePath.{join}
use tiny_file_watcher.Internal.FilePath.Split.{IsElem, spell, dir_path}
use tiny_file_watcher.Server.Outcome.{Exec}
use tiny_file_watcher.Server.Web.Upload.{Disk}
use tiny_file_watcher.Server.Web.Upload.Names.{IsFolderName}

-- the disk beside the paths of the files that are created on it or written, the latest first
module _ {D : Type 0} where
  abbrev pub noting :
      {A : Type 0} → String → Exec (Unit {0}) D A → Exec (Unit {0}) (D × List String) A
  noting path m (d, ps) = let (r, d') = m d in (r, (d', path ∷ ps))

  abbrev pub recording : Disk D → Disk (D × List String)
  recording disk = record {
    mkdir_all = λ path s. let (r, d) = disk.mkdir_all path s.0 in (r, (d, s.1));
    create = λ path. noting path (disk.create path);
    write = λ path text. noting path (disk.write path text);
  }

-- right below a folder; or the folder of a name that no file can be created at
abbrev pub IsEntry : String → String → Type 0
IsEntry dest path = (b : String) × (path ≡ join dest b) × (IsElem b ⊎ IsFolderName b)

-- the folder of an upload, as its elements: the source path, or a proper entry right below it
abbrev pub IsUploadDir : List String → String → List String → Type 0
IsUploadDir source folder ds = (ds ≡ source) ⊎ (IsElem folder × (ds ≡ source ++ folder ∷ []))

-- the spelling of an entry right below such a folder; or what the folder gives for a name of ".",
-- ".." or "/", at which there is a folder already
abbrev pub IsWithin : List String → String → String → Type 0
IsWithin source folder path =
    (ds : List String) × IsUploadDir source folder ds
    × (b : String) × ((IsElem b × (path ≡ spell ds b))
        ⊎ (IsFolderName b × (path ≡ join (dir_path ds) b)))

module _ {D : Type 0} (disk : Disk D) (xs : List String) (n : String) (d : D) where
  abbrev pub source : List String
  source = xs ++ n ∷ []
