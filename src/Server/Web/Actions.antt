-- ===== src/Server/Web/Actions.antt =====
-- server/web/action_handler.go: the handlers that start a sync or a flush, and the HTML they send.
pub mod Markup
use Prim.Native.String.{◌++◌ as append}
use tiny_file_watcher.Prelude.{String, Bool, true, false, List, [], ◌∷◌, if◌then◌else◌}
use tiny_file_watcher.Server.Outcome.{Result, ok, err, Code, not_found}
use tiny_file_watcher.Server.Flush.Service.{PendingFile}
use tiny_file_watcher.Server.Web.Http.{error, sync_result, html}
use tiny_file_watcher.Server.Web.Services.{Services}
use tiny_file_watcher.Server.Web.Watchers.{Answering, answer}

-- isNotFound of watcher_handler.go
unfoldable pub is_not_found : Code → Bool
is_not_found not_found = true
is_not_found e = false

-- the items of the list, before its end
unfoldable pub list_items : List PendingFile → String
list_items [] = "</ul>"
list_items (f ∷ files) = append "<li>" (append f.file_name (append "</li>" (list_items files)))

unfoldable pub pending_files_partial : List PendingFile → String
unfolding list_items
pending_files_partial [] = "<p id=\"pending-files\"><em>No pending files.</em></p>"
pending_files_partial (f ∷ files) = append "<ul id=\"pending-files\">" (list_items (f ∷ files))

module _ {S : Type 0} (svc : Services S) where
  unfoldable pub handle_sync : String → Answering S
  handle_sync name s =
      answer (svc.watcher_svc.sync_watcher name s) (λ result t. (sync_result name result, t))

  abbrev list_after : String → Answering S
  list_after name s =
      answer (svc.flush_svc.list_pending_files name s)
        (λ files t. (html (pending_files_partial files), t))

  -- `if err != nil && !isNotFound(err)`
  abbrev after_flush : String → Result Code Bool → Answering S
  after_flush name (ok done) s = list_after name s
  after_flush name (err e) s =
      let listed = list_after name s in if is_not_found e then listed else (error 500, s)

  unfoldable pub handle_flush : String → Answering S
  unfolding pending_files_partial is_not_found
  handle_flush name s =
      let (result, s') = svc.flush_svc.flush_watcher name s in after_flush name result s'
