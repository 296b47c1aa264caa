-- ===== src/Tests/Uploads.antt =====
-- The theorem on what an upload writes, on a concrete input.
use tiny_file_watcher.Prelude.{ℕ, ◌≡◌, refl, some, [], ◌∷◌, true}
use tiny_file_watcher.Internal.FilePath.{
  is_sep, split, last_elem, base, join, push, clean, render, join_elems, is_rooted,
}
use tiny_file_watcher.Server.Outcome.{ok}
use tiny_file_watcher.Server.Watcher.Service.{WatcherMessage}
use tiny_file_watcher.Server.Web.Upload.{Form, Disk, handle_upload}
use tiny_file_watcher.Server.Web.Upload.Confined.{recording}

abbrev disk : Disk ℕ
disk = record {
  mkdir_all = λ path d. (ok tt, d);
  create = λ path d. (ok tt, d);
  write = λ path text d. (ok tt, d);
}

abbrev docs : WatcherMessage
docs = record {
  id = 1;
  name = "docs";
  source_path = "/srv";
  machine_name = "nas";
  created_at = 0;
  updated_at = 0;
}

-- a form with the name of a file that points elsewhere
abbrev form : Form
form = record {
  folder = "in";
  files = record { filename = "../../etc/passwd"; content = some ("text", true) } ∷ [];
}

stays_below :
    handle_upload
      (recording disk)
      (ok (docs ∷ []))
      (some (record form { folder = "" }))
      "docs"
      (0, [])
    ≡ (ok ("../../etc/passwd" ∷ []), (0, "/srv/passwd" ∷ "/srv/passwd" ∷ []))
unfolding handle_upload base join split last_elem push clean render join_elems is_rooted is_sep
stays_below = refl
