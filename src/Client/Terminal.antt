-- ===== src/Client/Terminal.antt =====
-- client/cmd: what the commands print, and the shortening of paths (flush.go). A printed line is the
-- sequence of its texts and values; the widths of columns are not modelled.
pub mod Shorten
use Prim.Native.Char.{Char, code}
use tiny_file_watcher.Prelude.{
  ℕ, zero, suc, ◌+◌, ◌-◌, ◌/◌, ◌%◌, String, Bool, List, [], ◌∷◌, ◌++◌, Option, none, some, leb, ltb,
  length, if◌then◌else◌,
}
use tiny_file_watcher.Server.Outcome.{ok, err, Exec, pure, map_err, ◌>>=◌, ◌>>◌}

pub data Cell : Type 0 where
  text : String → Cell
  -- %q
  quoted : String → Cell
  -- %s of bytes that are cut from a text
  bytes : List ℕ → Cell
  number : ℕ → Cell
  flag : Bool → Cell
  -- the format time.DateTime
  time : ℕ → Cell

-- a line of its own, or a row of a table
pub data Line : Type 0 where
  line row : List Cell → Line

-- the state that a command works on, which is the server as it is seen over the connection or the
-- files of the user, and the lines so far
pub record Session (S : Type 0) : Type 0 where
  pub server : S
  pub printed : List Line

-- a call that fails; UpdateWatcher of a watcher that is not found; a flag that is missing; a panic
pub data CliError (E : Type 0) : Type 0 where
  rpc watcher_missing : E → CliError E
  flag_missing panicked : CliError E

module _ {E S : Type 0} where
  abbrev pub print : Line → Exec (CliError E) (Session S) (Unit {0})
  print l s = (ok tt, record s { printed = s.printed ++ l ∷ [] })

  -- a call over the connection, whose error ends the command
  abbrev pub call : {A : Type 0} → Exec E S A → Exec (CliError E) (Session S) A
  call m s = let (r, server) = m s.server in (map_err rpc r, record s { server = server })

-- the rows of a table, one for each item
unfoldable pub print_rows :
    {E S A : Type 0} → (A → List Cell) → List A → Exec (CliError E) (Session S) (Unit {0})
print_rows cells [] = pure tt
print_rows cells (x ∷ xs) = print (row (cells x)) >> print_rows cells xs

-- the bytes of a character and of a text
unfoldable pub utf8_char : ℕ → List ℕ
utf8_char c =
    if ltb c 128
    then c ∷ []
    else if ltb c 2048
    then (192 + c / 64) ∷ (128 + c % 64) ∷ []
    else if ltb c 65536
    then (224 + c / 4096) ∷ (128 + c / 64 % 64) ∷ (128 + c % 64) ∷ []
    else (240 + c / 262144) ∷ (128 + c / 4096 % 64) ∷ (128 + c / 64 % 64) ∷ (128 + c % 64) ∷ []

unfoldable pub utf8 : String → List ℕ
unfolding utf8_char
utf8 String.[] = []
utf8 (String.◌∷◌ c s) = utf8_char (code c) ++ utf8 s

abbrev pub drop : ℕ → List ℕ → List ℕ
drop zero bs = bs
drop (suc n) [] = []
drop (suc n) (b ∷ bs) = drop n bs

abbrev pub dots : List ℕ
dots = b'.' ∷ b'.' ∷ b'.' ∷ []

-- `none` is the panic of a slice that starts behind the end of the path
unfoldable pub shorten_path : List ℕ → ℕ → Option (List ℕ)
shorten_path path max_len =
    let start = length path - max_len + 3 in
    if leb (length path) max_len
    then some path
    else if leb start (length path)
    then some (dots ++ drop start path)
    else none
