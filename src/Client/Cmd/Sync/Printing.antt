-- ===== src/Client/Cmd/Sync/Printing.antt =====
-- client/cmd/sync.go: what is printed of a result and of the messages of a stream.
use mathlib.Core.List.{append-nil, append_assoc}
use tiny_file_watcher.Prelude.{
  ℕ, ◌≡◌, refl, sym, ap, ◌∙◌, String, Option, some, List, [], ◌∷◌, ◌++◌, map, inl, inr, arith,
}
use tiny_file_watcher.Server.Outcome.{ok, Exec, continue, ◌>>◌, pure}
use tiny_file_watcher.Server.Watcher.Service.{SyncWatcherResponse, Event, log_event}
use tiny_file_watcher.Client.Terminal.{
  Line, line, text, bytes, Session, CliError, print, utf8, shorten_path,
}
use tiny_file_watcher.Client.Terminal.Shorten.{shorten_path_lem}
use tiny_file_watcher.Client.Cmd.Sync.{
  shorten, print_paths, print_section, print_sync_result, receive,
}

-- 40 is no maximum at which a path cannot be shortened
shortened : (path : List ℕ) → (short : List ℕ) × (shorten_path path 40 ≡ some short)
shortened path = elim (shorten_path_lem path 40) [
  | inl (h, e) ↦ (path, e)
  | inr (inl x) ↦ (_, x.5)
  | inr (inr (a, b, e)) ↦ absurd (omega arith)
]

-- the line of a log message
abbrev pub log_line : String → Line
log_line message = line (text "[sync] " ∷ text message ∷ [])

module _ {E S : Type 0} where
  -- the call succeeds, prints these lines, and does nothing else
  pub record Prints (m : Exec (CliError E) (Session S) (Unit {0})) (ls : List Line) : Type 0 where
    pub printing : (s : Session S) → m s ≡ (ok tt, record s { printed = s.printed ++ ls })

  pure-Prints : Prints (pure tt) []
  pure-Prints = record {
    printing = λ s. ap (λ x. (ok tt, record s { printed = x })) (sym (append-nil s.printed));
  }

  print-Prints : (l : Line) → Prints (print l) (l ∷ [])
  print-Prints l = record { printing = λ s. refl }

  then-Prints :
      (m n : Exec (CliError E) (Session S) (Unit {0})) (ls ks : List Line)
      → Prints m ls
      → Prints n ks
      → Prints (m >> n) (ls ++ ks)
  then-Prints m n ls ks p q = record {
    printing = λ s.
        ap (λ x. continue x (λ t. n)) (p.printing s)
        ∙ q.printing (record s { printed = s.printed ++ ls })
        ∙ ap (λ x. (ok tt, record s { printed = x })) (append_assoc s.printed ls ks);
  }

  print_paths-Prints :
      (sign : String) (files : List String) → (ls : List Line) × Prints (print_paths sign files) ls
  unfolding print_paths
  print_paths-Prints sign [] = ([], pure-Prints)
  print_paths-Prints sign (f ∷ files) =
      let (short, e) = shortened (utf8 f) in
      let (ls, p) = print_paths-Prints sign files in
      let l : Line = line (text sign ∷ bytes short ∷ []) in
      (
        (l ∷ []) ++ ls,
        record {
          printing =
              λ s. rw (e, shorten) ((then-Prints _ _ (l ∷ []) ls (print-Prints l) p).printing s);
        },
      )

  print_section-Prints :
      (title sign : String) (files : List String)
      → (ls : List Line) × Prints (print_section title sign files) ls
  print_section-Prints title sign [] = ([], pure-Prints)
  print_section-Prints title sign (f ∷ files) =
      let (ls, p) = print_paths-Prints sign (f ∷ files) in
      (_, then-Prints _ _ _ ls (print-Prints (line (text title ∷ []))) p)

  pub print_sync_result-Prints :
      (name : String) (r : SyncWatcherResponse)
      → (ls : List Line) × Prints (print_sync_result name r) ls
  unfolding print_sync_result
  print_sync_result-Prints name r =
      let (added, p) = print_section-Prints "  Added files:" "    + " r.added_files in
      let (removed, q) = print_section-Prints "  Removed files:" "    - " r.removed_files in
      (
        _,
        then-Prints _ _ _ _ (print-Prints _) (
            then-Prints _ _ _ _ (print-Prints _)
              (then-Prints _ _ _ _ (print-Prints _) (then-Prints _ _ added removed p q))),
      )

  -- the log messages at the front of a stream
  pub receive-logs :
      (name : String) (messages : List String) (rest : List Event) (failure : Option E)
      (s : Session S)
      → receive name (map log_event messages ++ rest) failure s
        ≡ receive name rest failure (record s { printed = s.printed ++ map log_line messages })
  unfolding receive
  receive-logs name [] rest failure s =
      ap (λ x. receive name rest failure (record s { printed = x })) (sym (append-nil s.printed))
  receive-logs name (m ∷ ms) rest failure s =
      receive-logs name ms rest failure (record s { printed = s.printed ++ log_line m ∷ [] })
      ∙ ap (λ x. receive name rest failure (record s { printed = x }))
          (append_assoc s.printed (log_line m ∷ []) (map log_line ms))
