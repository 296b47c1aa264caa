-- ===== src/Server/Web/Actions/Markup.antt =====
-- server/web/action_handler.go: how the name of a file stands in the HTML of the pending files.
use Prim.Native.String.{◌++◌ as append}
use text.Mathlib.TextLemmas.{append_assoc}
use tiny_file_watcher.Prelude.{◌≡◌, refl, ap, sym, ◌∙◌, String, Bool, List, [], ◌∷◌, ◌++◌}
use tiny_file_watcher.Server.Outcome.{ok}
use tiny_file_watcher.Server.Flush.Service.{PendingFile}
use tiny_file_watcher.Server.Web.Http.{html}
use tiny_file_watcher.Server.Web.Services.{Services}
use tiny_file_watcher.Server.Web.Actions.{list_items, pending_files_partial, handle_flush}

-- the text stands in the other one, character by character
abbrev pub StandsIn : String → String → Type 0
StandsIn t s = (before : String) × (after : String) × (s ≡ append before (append t after))

StandsIn-append : (a t s : String) → StandsIn t s → StandsIn t (append a s)
StandsIn-append a t s (before, after, e) =
    (append a before, after, ap (append a) e ∙ sym (append_assoc a before (append t after)))

item-StandsIn :
    (xs ys : List PendingFile) (f : PendingFile) → StandsIn f.file_name (list_items (xs ++ f ∷ ys))
unfolding list_items
item-StandsIn [] ys f = ("<li>", append "</li>" (list_items ys), refl)
item-StandsIn (x ∷ xs) ys f =
    StandsIn-append "<li>" _ _
      (StandsIn-append x.file_name _ _ (StandsIn-append "</li>" _ _ (item-StandsIn xs ys f)))

partial-StandsIn :
    (xs ys : List PendingFile) (f : PendingFile)
    → StandsIn f.file_name (pending_files_partial (xs ++ f ∷ ys))
unfolding pending_files_partial
partial-StandsIn [] ys f = StandsIn-append _ _ _ (item-StandsIn [] ys f)
partial-StandsIn (x ∷ xs) ys f = StandsIn-append _ _ _ (item-StandsIn (x ∷ xs) ys f)

-- Where a flush succeeds and files are still pending afterwards, the answer is HTML in which the name
-- of each of them stands as it is, with every character that is markup.
pub handle_flush-StandsIn :
    {S : Type 0} (svc : Services S) (name : String) (s t u : S) (done : Bool)
    (xs ys : List PendingFile) (f : PendingFile)
    → svc.flush_svc.flush_watcher name s ≡ (ok done, t)
    → svc.flush_svc.list_pending_files name t ≡ (ok (xs ++ f ∷ ys), u)
    → (text : String) × (handle_flush svc name s ≡ (html text, u)) × StandsIn f.file_name text
unfolding handle_flush
handle_flush-StandsIn svc name s t u done xs ys f flushed listed =
    (pending_files_partial (xs ++ f ∷ ys), rw flushed (rw listed refl), partial-StandsIn xs ys f)
