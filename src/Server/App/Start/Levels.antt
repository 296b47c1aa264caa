-- ===== src/Server/App/Start/Levels.antt =====
-- The texts of log/slog's levels, which app.go reads: a name in either case with an offset or without.
use Prim.Native.Char.{Char, code}
use tiny_file_watcher.Prelude.{
  ℕ, ◌-◌, String, Bool, true, false, ◌&&◌, ◌||◌, Option, none, some, List, [], ◌∷◌, any, nat_eq,
  leb, if◌then◌else◌,
}
use tiny_file_watcher.Internal.Strconv.{atoi}

abbrev is_sign : Char → Bool
is_sign c = nat_eq (code c) b'+' || nat_eq (code c) b'-'

abbrev name_before : Bool → Char → String → String × String → String × String
name_before true c s (name, offset) = ("", String.◌∷◌ c s)
name_before false c s (name, offset) = (String.◌∷◌ c name, offset)

-- the text before the first sign, and that from it on
unfoldable pub split_sign : String → String × String
split_sign String.[] = ("", "")
split_sign (String.◌∷◌ c s) = name_before (is_sign c) c s (split_sign s)

-- strings.ToUpper as far as it yields the letters of the names: on ASCII, and on the dotless i
abbrev upper : ℕ → ℕ
upper n = if leb b'a' n && leb n b'z' then n - 32 else if nat_eq n 305 then b'I' else n

unfoldable pub same_name : String → String → Bool
same_name String.[] String.[] = true
same_name String.[] (String.◌∷◌ d t) = false
same_name (String.◌∷◌ c s) String.[] = false
same_name (String.◌∷◌ c s) (String.◌∷◌ d t) = nat_eq (upper (code c)) (code d) && same_name s t

abbrev level_names : List String
level_names = "DEBUG" ∷ "INFO" ∷ "WARN" ∷ "ERROR" ∷ []

abbrev succeeds : Option ℕ → Bool
succeeds none = false
succeeds (some n) = true

abbrev is_offset : String → Bool
is_offset String.[] = true
is_offset (String.◌∷◌ c s) = succeeds (atoi (String.◌∷◌ c s))

-- whether UnmarshalText takes the text
unfoldable pub is_level : String → Bool
unfolding split_sign same_name atoi
is_level text =
    let (name, offset) = split_sign text in any (same_name name) level_names && is_offset offset
