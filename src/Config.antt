-- ===== src/Config.antt =====
-- internal/config/config.go: the configuration, its defaults and the connection string. Durations
-- count nanoseconds; an int is an integer of any sign, as the YAML file may give one.
mod Types
mod Defaults
pub use Types.*
pub use Defaults.*
use ztelem.Prelude.{
  ℕ, ◌*◌, Bool, true, false, Bytes, [], ◌∷◌, ◌++◌, ℤ, pos, codes, format_int, Option, none, some,
}

-- `os.Stat` and `os.ReadFile`: no such file, a file that cannot be read, or its bytes.
pub data FileState : Type 0 where
  missing : FileState
  unreadable : Bytes → FileState
  readable : Bytes → FileState

pub data Loaded : Type 0 where
  loaded : Config → Loaded
  read_failed : Bytes → Loaded
  parse_failed : Bytes → Loaded

-- `yaml.Unmarshal(data, config)` is not part of the repository: it is the argument `unmarshal`, which
-- gives the configuration that it leaves behind, or its error.
pub data Unmarshalled : Type 0 where
  decoded : Config → Unmarshalled
  rejected : Bytes → Unmarshalled

decode_config : Unmarshalled → Loaded
decode_config (decoded config) = loaded config
decode_config (rejected err) = parse_failed err

unfoldable pub load_config : (Bytes → Config → Unmarshalled) → FileState → Loaded
unfolding decode_config
load_config unmarshal missing = loaded default_config
load_config unmarshal (unreadable err) = read_failed err
load_config unmarshal (readable text) = decode_config (unmarshal text default_config)

unfoldable pub get_dsn : DatabaseConfig → Bytes
get_dsn d =
    codes "host="
    ++ (d.host
        ++ (codes " port="
            ++ (format_int d.port
                ++ (codes " user="
                    ++ (d.user
                        ++ (codes " password="
                            ++ (d.password
                                ++ (codes " dbname="
                                    ++ (d.database
                                        ++ (codes " sslmode="
                                            ++ (d.ssl_mode
                                                ++ (codes " search_path=" ++ d.schema))))))))))))
