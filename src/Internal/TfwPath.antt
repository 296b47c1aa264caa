-- ===== src/Internal/TfwPath.antt =====
-- internal/tfw_path.go: where the files of the program are. The environment is an argument; `none` is
-- the panic where the home directory is not known.
use tiny_file_watcher.Prelude.{String, Option, none, some, ◌==◌, if◌then◌else◌}
use tiny_file_watcher.Internal.FilePath.{join}

pub record Environment : Type 0 where
  -- TFWS_CONFIG_PATH, the empty text if it is not set
  pub config_path : String
  -- os.UserHomeDir
  pub home : Option String

abbrev pub dir_name : String
dir_name = ".tfw"

abbrev in_home : Option String → Option String
in_home none = none
in_home (some home) = some (join home dir_name)

unfoldable pub dir : Environment → Option String
dir env = if env.config_path == "" then in_home env.home else some env.config_path

abbrev file_in : Option String → String → Option String
file_in none file = none
file_in (some d) file = some (join d file)

unfoldable pub server_config_path : Environment → Option String
unfolding dir
server_config_path env = file_in (dir env) "tfws.yml"

unfoldable pub client_config_path : Environment → Option String
unfolding dir
client_config_path env = file_in (dir env) "tfw.yml"

unfoldable pub database_path : Environment → Option String
unfolding dir
database_path env = file_in (dir env) "tfw.db"

unfoldable pub tokens_path : Environment → Option String
unfolding dir
tokens_path env = file_in (dir env) "tokens.json"

unfoldable pub machine_path : Environment → Option String
unfolding dir
machine_path env = file_in (dir env) "machine.json"
