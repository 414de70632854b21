-- ===== src/Creds/Reload.antt =====
-- A reload of cmd/socks.go on SIGHUP, after the users of the configuration were written, and the clients of
-- the server then.
use slipgate.Prelude.{
  ℕ, ◌≡◌, ◌<◌, inl, inr, ap, ◌∙◌, true, List, [], ◌∷◌, ◌++◌, some, arith, ltb, Bytes, bytes_eq_refl,
  length, All, Option-cases,
}
use slipgate.Prelude.Table.{text_eq, load}
use slipgate.Config.{UserConfig, Config}
use slipgate.Config.Store.{user_key, find_key, get_user}
use slipgate.Config.Store.Laws.{Unique}
use slipgate.Proxy.Socks5.{Server, Credentials, Dialler, Address, has_auth, connect, handle_conn}
use slipgate.Proxy.Socks5.Client.{greeting, login, request, IsAddress, handle_conn-login}
use slipgate.Proxy.Socks5.Auth.{Dials, HasLogin, handle_conn-HasLogin}
use slipgate.Creds.{write_creds, read_creds_file, reload}
use slipgate.Creds.RoundTrip.{IsPlain, password_of, read_creds_file-write_creds}

load-has_auth :
    (s : Server) (name pass : Bytes) → load name s.credentials ≡ some pass → has_auth s ≡ true
unfolding has_auth load
load-has_auth s name pass h = has s.credentials h
  where
    has : (m : Credentials) → load name m ≡ some pass → ltb 0 (length m) ≡ true
    has [] e = cc
    has (e ∷ m) h = ground arith

-- The server after a reload of the file that was written for the users of a configuration.
abbrev pub reloaded : Server → Config → Server
reloaded s c = reload s (read_creds_file (write_creds c.users))

load-reloaded :
    (s : Server) (c : Config) (name : Bytes)
    → All IsPlain c.users
    → Unique user_key c.users
    → load name (reloaded s c).credentials ≡ password_of (get_user c name)
unfolding reload
load-reloaded s c name plain distinct =
    let (creds, e, l) = read_creds_file-write_creds c name plain distinct in rw e l

pub reload-login :
    (s : Server) (c : Config) (u : UserConfig) (name : Bytes) (dial : Dialler) (methods : Bytes)
    (address : Address) (port : ℕ) (rest : Bytes)
    → All IsPlain c.users
    → Unique user_key c.users
    → get_user c name ≡ some u
    → IsAddress address
    → port < 65536
    → handle_conn
        (reloaded s c)
        (reloaded s c)
        dial
        (greeting methods ++ (login name u.password ++ (request address port ++ rest)))
      ≡ connect dial address port rest (5 ∷ 2 ∷ 1 ∷ 0 ∷ [])
reload-login s c u name dial methods address port rest plain distinct known ok lt =
    let pass : load name (reloaded s c).credentials ≡ some u.password =
      load-reloaded s c name plain distinct ∙ ap password_of known in
    handle_conn-login (reloaded s c) dial methods name u.password address port rest
      (load-has_auth (reloaded s c) name u.password pass) pass ok lt

HasLogin-user :
    (s : Server) (c : Config) (input : Bytes)
    → All IsPlain c.users
    → Unique user_key c.users
    → HasLogin (reloaded s c) input
    → (methods name rest : Bytes) × ((u : UserConfig) × (get_user c name ≡ some u)
        × (input ≡ greeting methods ++ (login name u.password ++ rest)))
HasLogin-user s c input plain distinct h = elim (Option-cases (get_user c h.user)) [
  | inl e ↦ cc (load-reloaded s c h.user plain distinct, h.known, ap password_of e)
  | inr (u, e) ↦
      let same : h.pass ≡ u.password =
        ground (arith, h.known, load-reloaded s c h.user plain distinct, ap password_of e) in
      (
        h.methods,
        h.user,
        h.rest,
        (
          u,
          e,
          h.input_is ∙ ap (λ (p : Bytes). greeting h.methods ++ (login h.user p ++ h.rest)) same,
        ),
      )
]

-- After the reload, if the configuration has a user, every user of it is plain (a nonempty name with no colon and no newline
-- that does not begin with a space or '#', and a nonempty password that `ValidatePassword` accepts and that does not end in a
-- space, in a line of less than 65536 bytes) and no two have one name, a target is dialled only for a client that has sent
-- the name and password of a user of the configuration.
pub reload-known :
    (s : Server) (c : Config) (first : UserConfig) (others : List UserConfig) (dial : Dialler)
    (input : Bytes)
    → c.users ≡ first ∷ others
    → All IsPlain c.users
    → Unique user_key c.users
    → Dials (handle_conn (reloaded s c) (reloaded s c) dial input)
    → (methods name rest : Bytes) × ((u : UserConfig) × (get_user c name ≡ some u)
        × (input ≡ greeting methods ++ (login name u.password ++ rest)))
unfolding get_user find_key
reload-known s c first others dial input some_user plain distinct dials =
    let at : get_user c first.username ≡ some first =
      ground (arith, some_user, bytes_eq_refl first.username) in
    let auth =
      load-has_auth (reloaded s c) first.username first.password
        (load-reloaded s c first.username plain distinct ∙ ap password_of at) in
    HasLogin-user s c input plain distinct
      (handle_conn-HasLogin (reloaded s c) (reloaded s c) dial input auth dials)
