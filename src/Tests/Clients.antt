-- ===== src/Tests/Clients.antt =====
-- The users of the configuration as clients of the SOCKS5 server, and links for its tunnels.
use mathlib.Core.Path.{subst}
use slipgate.Prelude.{
  ◌≡◌, ◌↔◌, refl, sym, List, [], ◌∷◌, ◌++◌, none, some, arith, Bytes, codes, bytes_eq, get_or, All,
  is_space,
}
use slipgate.Prelude.Table.{text_eq, load}
use slipgate.Config.{UserConfig, backend_ssh, is_empty}
use slipgate.Config.Store.{find_key, get_user}
use slipgate.Config.Validation.{check_bytes, validate_password}
use slipgate.Proxy.Socks5.{Server, Dialler, Address, ipv4, connect, handle_conn}
use slipgate.Proxy.Socks5.Client.{greeting, login, request}
use slipgate.Proxy.Socks5.Auth.{Dials}
use slipgate.Creds.{write_creds, read_creds_file}
use slipgate.Creds.RoundTrip.{IsPlain, password_of, read_creds_file-write_creds}
use slipgate.Creds.Trim.{spaced, read_creds_file_trims}
use slipgate.Creds.Reload.{reloaded, reload-login, reload-known}
use slipgate.ClientConfig.{Library, decode}
use slipgate.ClientConfig.Fields.{f_ssh_port, client_mode_dnstt}
use slipgate.ClientConfig.Generate.{UriOptions, generate_fields, generate_uri}
use slipgate.ClientConfig.RoundTrip.{NoBar, decode-generate_uri}
use slipgate.ClientConfig.Contents.{generate_fields_port}
use slipgate.Tests.Config.{config, user, users-Unique, first, second}

ann-IsPlain : IsPlain (user "ann" "secret")
unfolding is_space validate_password check_bytes is_empty
ann-IsPlain = record {
  first = 97;
  others = codes "nn";
  front = codes "secre";
  last = 116;
  name_is = refl;
  name_bytes = (
    ((λ e. omega (arith, e)), (λ e. omega (arith, e))),
    (
      ((λ e. omega (arith, e)), (λ e. omega (arith, e))),
      (((λ e. omega (arith, e)), (λ e. omega (arith, e))), tt),
    ),
  );
  no_space = refl;
  no_hash = λ e. omega (arith, e);
  password_is = refl;
  ends = refl;
  valid = refl;
  fits = omega arith;
}

bob-IsPlain : IsPlain (user "bob" "hidden")
unfolding is_space validate_password check_bytes is_empty
bob-IsPlain = record {
  first = 98;
  others = codes "ob";
  front = codes "hidde";
  last = 110;
  name_is = refl;
  name_bytes = (
    ((λ e. omega (arith, e)), (λ e. omega (arith, e))),
    (
      ((λ e. omega (arith, e)), (λ e. omega (arith, e))),
      (((λ e. omega (arith, e)), (λ e. omega (arith, e))), tt),
    ),
  );
  no_space = refl;
  no_hash = λ e. omega (arith, e);
  password_is = refl;
  ends = refl;
  valid = refl;
  fits = omega arith;
}

pub users-IsPlain : All IsPlain config.users
users-IsPlain = (ann-IsPlain, (bob-IsPlain, tt))

read_creds_file-write_creds_example :
    (creds : List (Bytes × Bytes)) × (read_creds_file (write_creds config.users) ≡ some creds)
    × (load (codes "bob") creds ≡ password_of (get_user config (codes "bob")))
read_creds_file-write_creds_example =
    read_creds_file-write_creds config (codes "bob") users-IsPlain users-Unique

read_creds_file_trims_example :
    (validate_password (spaced (user "ann" "secret")).password ≡ none)
    × (read_creds_file (write_creds (spaced (user "ann" "secret") ∷ []))
        ≡ read_creds_file (write_creds (user "ann" "secret" ∷ [])))
read_creds_file_trims_example =
    read_creds_file_trims (user "ann" "secret") ann-IsPlain (omega arith)

abbrev empty : Server
empty = record { listen_addr = codes "127.0.0.1:1080"; credentials = [] }

abbrev dial : Dialler
dial = λ address port. some (record { ip4 = some (10 ∷ 0 ∷ 0 ∷ 1 ∷ []); port = 4000 })

abbrev here : Address
here = ipv4 (127 ∷ 0 ∷ 0 ∷ 1 ∷ [])

abbrev session : Bytes
session =
    greeting (0 ∷ 2 ∷ [])
    ++ (login (codes "bob") (codes "hidden") ++ (request here 22 ++ codes "hi"))

bob_connects :
    handle_conn (reloaded empty config) (reloaded empty config) dial session
    ≡ connect dial here 22 (codes "hi") (5 ∷ 2 ∷ 1 ∷ 0 ∷ [])
unfolding get_user find_key bytes_eq
bob_connects =
    reload-login empty config (user "bob" "hidden") (codes "bob") dial (0 ∷ 2 ∷ []) here 22
      (codes "hi") users-IsPlain users-Unique refl refl (omega arith)

session-Dials : Dials (handle_conn (reloaded empty config) (reloaded empty config) dial session)
unfolding connect
session-Dials = subst Dials (sym bob_connects) tt

reload-known_example :
    (methods name rest : Bytes) × ((u : UserConfig) × (get_user config name ≡ some u)
      × (session ≡ greeting methods ++ (login name u.password ++ rest)))
reload-known_example =
    reload-known empty config (user "ann" "secret") (user "bob" "hidden" ∷ []) dial session refl
      users-IsPlain users-Unique session-Dials

-- base64 as the identity.
abbrev library : Library
library = record {
  base64 = λ s. s;
  base64_decode = λ s. some s;
  url_base64_decode = λ s. none;
  parse_seconds = λ d. none;
  split_port = λ a. some (codes "2222");
  server_ip = codes "10.0.0.1";
  base64_decode-base64 = λ s. refl;
}

abbrev options : UriOptions
options = record {
  client_mode = client_mode_dnstt;
  username = codes "ann";
  password = codes "secret";
}

decode-generate_uri_example :
    (decode library (generate_uri library first none options)
      ≡ some (generate_fields library first none options))
    ↔ All NoBar (generate_fields library first none options)
decode-generate_uri_example = decode-generate_uri library first none options

generate_fields_port_example :
    get_or
      (generate_fields library second
        (some (record {
          tag = codes "ssh";
          kind = backend_ssh;
          address = codes "127.0.0.1:2222";
          socks = none;
        }))
        options)
      f_ssh_port
      []
    ≡ codes "22"
generate_fields_port_example =
    generate_fields_port library second
      (some (record {
        tag = codes "ssh";
        kind = backend_ssh;
        address = codes "127.0.0.1:2222";
        socks = none;
      }))
      options (λ e. cc)
