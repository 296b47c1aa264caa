-- ===== src/Server/Database/Paths.antt =====
-- server/database/file_db.go: how a row stores the path of its file.
use tiny_file_watcher.Prelude.{true, arith, ℕ, ◌≡◌, ap, String, Bool, List, All, eq_refl}
use tiny_file_watcher.Internal.FilePath.{dir, base}
use tiny_file_watcher.Internal.FilePath.Split.{IsElem, spell}
use tiny_file_watcher.Internal.FilePath.Canonical.{join-dir-base}
use tiny_file_watcher.Server.Database.{rfc3339}
use tiny_file_watcher.Server.Database.Files.{new_row, read_row, is_file_of}

-- A file with an absolute path of proper elements, inserted for a watcher, is read back with that
-- path, the watcher, the flag and the time of its detection in whole seconds; and the DELETE by
-- path and watcher finds its row.
pub read_row-new_row :
    (id : ℕ) (name : String) (flushed : Bool) (now : ℕ) (xs : List String) (n : String)
    → All IsElem xs
    → IsElem n
    → (read_row (new_row id name flushed now (spell xs n)) ≡ record {
      id = id;
      watcher_name = name;
      file_path = spell xs n;
      flushed = flushed;
      detected_at = rfc3339 now;
    })
      × (is_file_of name (spell xs n) (new_row id name flushed now (spell xs n)) ≡ true)
unfolding new_row
read_row-new_row id name flushed now xs n h e =
    let (d, b, j, c) = join-dir-base xs n h e in
    (
      ap
          (λ p. record {
            id = id;
            watcher_name = name;
            file_path = p;
            flushed = flushed;
            detected_at = rfc3339 now;
          })
          j,
      ground (arith, eq_refl name, eq_refl (dir (spell xs n)), eq_refl (base (spell xs n))),
    )
