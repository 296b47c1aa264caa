-- ===== src/Server/Web/Watchers.antt =====
-- server/web/watcher_handler.go: the dashboard and the pages of the watchers.
use tiny_file_watcher.Prelude.{
  ℕ, ◌+◌, String, Option, none, some, List, [], ◌∷◌, ◌==◌, first, length,
}
use tiny_file_watcher.Server.Outcome.{Result, ok, err, Exec, Code}
use tiny_file_watcher.Server.Watcher.Service.{WatcherMessage}
use tiny_file_watcher.Server.Flush.Service.{PendingFile}
use tiny_file_watcher.Server.Web.Http.{Reply, error, dashboard, watcher_list, watcher_detail}
use tiny_file_watcher.Server.Web.Services.{Services, render}

-- a handler of the application answers on the state of the services
abbrev pub Answering : Type 0 → Type 0
Answering S = S → Reply × S

module _ {S : Type 0} where
  -- `if err != nil { http.Error(w, err.Error(), 500); return }`
  abbrev pub answer : {A : Type 0} → Result Code A × S → (A → Answering S) → Reply × S
  answer (ok a, s) k = k a s
  answer (err e, s) k = (error 500, s)

  -- `if x, err := …; err == nil`: the value if there is no error
  abbrev pub attempt : {A : Type 0} → Exec Code S A → S → Option A × S
  attempt m s = let (r, s') = m s in (elim r [ ok a ↦ some a | err e ↦ none ], s')

abbrev pub count_of : Option (List PendingFile) → ℕ
count_of none = 0
count_of (some files) = length files

abbrev files_of : Option (List PendingFile) → List PendingFile
files_of none = []
files_of (some files) = files

module _ {S : Type 0} (svc : Services S) where
  -- the loop over the watchers; a watcher whose files cannot be listed counts as none
  unfoldable pub count_pending : List WatcherMessage → S → ℕ × S
  count_pending [] s = (0, s)
  count_pending (w ∷ ws) s =
      let (files, s') = attempt (svc.flush_svc.list_pending_files w.name) s in
      let (rest, s'') = count_pending ws s' in (count_of files + rest, s'')

  abbrev show_dashboard : List WatcherMessage → Answering S
  show_dashboard watchers s =
      let (pending, s') = count_pending watchers s in
      (render "index.html" (dashboard (length watchers) pending), s')

  unfoldable pub handle_dashboard : Answering S
  unfolding count_pending render
  handle_dashboard s = answer (svc.watcher_svc.list_watchers none s) show_dashboard

  unfoldable pub handle_watcher_list : Answering S
  unfolding render
  handle_watcher_list s =
      answer (svc.watcher_svc.list_watchers none s)
        (λ watchers t. (render "watchers.html" (watcher_list watchers), t))

  -- the page of a watcher, without its redirection or its files if they cannot be had
  abbrev show_watcher : String → Option WatcherMessage → Answering S
  show_watcher name none s = (error 404, s)
  show_watcher name (some wt) s =
      let (redirection, s') = attempt (svc.redirect_svc.get_file_redirection name) s in
      let (pending, s'') = attempt (svc.flush_svc.list_pending_files name) s' in
      (render "watcher.html" (watcher_detail wt redirection (files_of pending)), s'')

  unfoldable pub handle_watcher_detail : String → Answering S
  unfolding render
  handle_watcher_detail name s =
      answer (svc.watcher_svc.list_watchers none s)
        (λ watchers. show_watcher name (first (λ w. w.name == name) watchers))
