-- ===== src/Creds.antt =====
-- The credentials of the SOCKS5 service: the file that internal/proxy/microsocks.go writes, and how cmd/socks.go reads it, the
-- flags beside it, and the reload on SIGHUP.
pub mod RoundTrip
pub mod Trim
pub mod Reload
use slipgate.Prelude.{
  ℕ, ◌+◌, Bool, true, false, ◌||◌, List, [], ◌∷◌, ◌++◌, Option, none, some, ltb, leb, ◌==◌,
  if◌then◌else◌, Bytes, codes, length, take, drop, index_byte, split, has_prefix, trim_space,
}
use slipgate.Prelude.Table.{Table, text_eq, store}
use slipgate.Config.{UserConfig, is_empty}
use slipgate.Proxy.Socks5.{Server, Credentials, new_server_multi, set_credentials}

-- What `writeSocksCredsFile` writes.
unfoldable pub write_creds : List UserConfig → Bytes
write_creds [] = []
write_creds (u ∷ us) =
    if is_empty u.username || is_empty u.password
    then write_creds us
    else u.username ++ (codes ":" ++ (u.password ++ (10 ∷ write_creds us)))

-- if i := strings.IndexByte(c, ':'); i > 0 { creds[c[:i]] = c[i+1:] }
unfoldable pub add_cred : Bytes → Credentials → Credentials
add_cred c creds = elim (index_byte c b':') [
  | none ↦ creds
  | some i ↦ if ltb 0 i then store (take i c) (drop (i + 1) c) creds else creds
]

-- `parseCredsList`, onto the credentials before
unfoldable pub parse_creds_list : List Bytes → Credentials → Credentials
parse_creds_list [] creds = creds
parse_creds_list (c ∷ cs) creds = parse_creds_list cs (add_cred c creds)

-- one line of `readCredsFile`
unfoldable pub read_line : Bytes → Credentials → Credentials
read_line text creds =
    let line = trim_space text in
    if is_empty line || has_prefix line (codes "#") then creds else add_cred line creds

-- The loop over the scanner, on the lines: a line that its buffer of 65536 bytes cannot hold with the newline is an error.
unfoldable pub read_lines : List Bytes → Credentials → Option Credentials
read_lines [] creds = some creds
read_lines (l ∷ ls) creds =
    let rest = read_lines ls (read_line l creds) in if leb 65536 (length l) then none else rest

-- `readCredsFile`, on the content. The scanner gives no empty line at the end, which would be skipped, and it takes off a
-- carriage return, which the trim would do; so the parts between the newlines are its lines.
unfoldable pub read_creds_file : Bytes → Option Credentials
read_creds_file content = read_lines (split content 10) []

-- the loop that lays the credentials of the file over those of the flags
unfoldable pub overlay : Credentials → Credentials → Credentials
overlay [] creds = creds
overlay (e ∷ file_creds) creds = overlay file_creds (store e.0 e.1 creds)

-- The `RunE` of `socks serve` up to `ListenAndServe`; `read` is the outcome of the file, `none` if no file is named. The
-- result is `none` where the command fails.
unfoldable pub serve_creds :
    Bytes → List Bytes → Option (Option Credentials) → Bytes → Bytes → Option Server
serve_creds addr creds_list read user pass = elim read [
  | none ↦ some (new_server_multi addr (legacy (parse_creds_list creds_list [])))
  | some none ↦ none
  | some (some file_creds) ↦
      some (new_server_multi addr (legacy (overlay file_creds (parse_creds_list creds_list []))))
]
  where
    legacy : Credentials → Credentials
    legacy [] = if is_empty user then [] else store user pass []
    legacy (e ∷ creds) = e ∷ creds

-- One round of `watchCredsFile`.
unfoldable pub reload : Server → Option Credentials → Server
reload s none = s
reload s (some creds) = set_credentials s creds
