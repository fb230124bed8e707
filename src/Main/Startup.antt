-- ===== src/Main/Startup.antt =====
-- The start of `main` of vncproxy.cc, up to the creation of the poll manager.
use vncproxy.Prelude.{ℕ, ◌||◌, Bool, true, false, Option, none, some, List, [], ◌∷◌}
use vncproxy.Auth.{same_bytes}
use vncproxy.System.{System, Act, ◌>>=◌, ◌>>◌, pure, verify}
use vncproxy.Sockets.{must_set, bind_on}

-- `exit` with its status, or the database file and the socket that the rest of `main` uses.
pub data Start : Type 0 where
  exited : ℕ → Start
  serving : List ℕ → ℕ → Start

-- "check for -h and --help", over the arguments after the program's name
unfoldable pub asks_help : List (List ℕ) → Bool
asks_help [] = false
asks_help (arg ∷ args) =
    (same_bytes arg (45 ∷ 104 ∷ []) || same_bytes arg (45 ∷ 45 ∷ 104 ∷ 101 ∷ 108 ∷ 112 ∷ []))
    || asks_help args

-- "vncproxy.sqlite3"
abbrev pub default_db : List ℕ
default_db =
    118 ∷ 110 ∷ 99 ∷ 112 ∷ 114 ∷ 111 ∷ 120 ∷ 121 ∷ 46 ∷ 115 ∷ 113 ∷ 108 ∷ 105 ∷ 116 ∷ 101 ∷ 51 ∷ []

-- The arguments after the address: `argv[2]` where `argc >= 3`
unfoldable pub db_name : List (List ℕ) → List ℕ
db_name [] = default_db
db_name (db ∷ more) = db

-- `opens db`: sqlite3_open of the file gives 0. `created`: so does the sqlite3_exec of
-- "create table if not exists".
module _ (sys : System) (opens : List ℕ → Bool) (created : Bool) where
  unfoldable pub serve_on : List ℕ → Option ℕ → Act Start
  serve_on db none = pure (exited 1)
  serve_on db (some server_sock) = must_set sys server_sock true >> pure (serving db server_sock)

  unfoldable pub open_db : List ℕ → List ℕ → Bool → Act Start
  open_db db bind_addr false = pure (exited 1)
  open_db db bind_addr true = do
    verify created
    server_sock ← bind_on sys bind_addr
    serve_on db server_sock

  -- From the test of `argc < 2`
  unfoldable pub start_with : List (List ℕ) → Act Start
  start_with [] = pure (exited 1)
  start_with (bind_addr ∷ more) = let db = db_name more in open_db db bind_addr (opens db)

  unfoldable pub start : List (List ℕ) → Act Start
  start args = elim (asks_help args) [ true ↦ pure (exited 0) | false ↦ start_with args ]
