-- ===== src/Server/Flush/Reliable.antt =====
-- server/flush/flush.go: a flush job over machines that answer.
use tiny_file_watcher.Prelude.{ℕ, ◌≡◌, String, true, All}
use tiny_file_watcher.Server.Outcome.{ok, Exec}
use tiny_file_watcher.Server.Flush.Transfer.{SftpClient, Pool, Reader, Writer}

-- from a state of that kind the call gives a value of that kind and keeps the kind of state
abbrev pub Runs : {E S A : Type 0} → (S → Type 0) → (A → Type 0) → Exec E S A → Type 0
Runs {E} {S} {A} I P m = (s : S) → I s → (a : A) × (s' : S) × (m s ≡ (ok a, s')) × P a × I s'

abbrev pub Any : {A : Type 0} → A → Type 0
Any a = Unit

-- a client whose calls succeed, with what it opens
pub record IsReliable {R : Type 0} (c : SftpClient R) : Type 0 where
  pub stat : (path : String) → Runs Any Any (c.stat path)
  pub mkdir_all : (path : String) → Runs Any Any (c.mkdir_all path)
  pub open_file :
      (path : String)
      → Runs Any
          (λ (h : Reader R). (s : R) → (t : String) × (s' : R) × (h.read s ≡ ((t, true), s')))
          (c.open_file path)
  pub create :
      (path : String)
      → Runs Any (λ (h : Writer R). (t : String) → Runs Any Any (h.write t)) (c.create path)
  pub chmod : (path : String) (mode : ℕ) → Runs Any Any (c.chmod path mode)
  pub chtimes : (path : String) (atime mtime : ℕ) → Runs Any Any (c.chtimes path atime mtime)

module _ {R : Type 0} where
  -- the open connections are to machines that answer
  abbrev Open : Pool R → Type 0
  Open p = All (λ x. IsReliable x.1) p.clients
