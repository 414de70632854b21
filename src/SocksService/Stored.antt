-- ===== src/SocksService/Stored.antt =====
-- The credentials file that internal/proxy/microsocks.go leaves, read by the server it is for.
use slipgate.Prelude.{
  ◌≡◌, refl, false, List, [], ◌∷◌, some, arith, Bytes, codes, ◌++◌, bytes_eq, has_prefix,
  bytes_eq_refl, Option-cases, Bool-cases, inl, inr, All,
}
use slipgate.Prelude.Table.{load, load-store, text_eq}
use slipgate.Config.{UserConfig, Config}
use slipgate.Config.Store.{user_key, get_user}
use slipgate.Config.Store.Laws.{Unique}
use slipgate.Creds.{write_creds, read_creds_file}
use slipgate.Creds.RoundTrip.{IsPlain, password_of, read_creds_file-write_creds}
use slipgate.Proxy.Socks5.{Credentials}
use slipgate.Host.{World, Env, ok, noted, note, modify, attempt, ◌>>=◌, pure, done}
use slipgate.Host.Machine.{write_file, mkdir_all, run, command, succeeds, is_under}
use slipgate.Host.Rename.{load-rename}
use slipgate.SocksService.{write_creds_file, own_creds, creds_temp, creds_file, system_user}
use slipgate.Service.{system_group}

module _ ⦃env : Env⦄ where
  written :
      (path content : Bytes) (w : World)
      → (write_file path content w).0 ≡ ok tt
      → load path (write_file path content w).1.files ≡ some content
  unfolding write_file noted
  written path content w e =
      ground (arith, load-store path path content w.files, bytes_eq_refl path)

  own_creds-files :
      ((w : World) (args : List Bytes) → (env.exec w (codes "chown" ∷ args)).files ≡ w.files)
      → (w : World) → (own_creds w).1.files ≡ w.files
  unfolding own_creds succeeds run command noted attempt ◌>>=◌ pure done note modify
  own_creds-files leaves w = elim (Bool-cases env.is_root) [
    | inl root ↦
        let args : List Bytes = (system_user ++ (codes ":" ++ system_group)) ∷ creds_temp ∷ [] in
        let same = leaves w args in
        elim (Option-cases (env.exec w (codes "chown" ∷ args)).failure) [
          | inl fine ↦ rw (root, fine) same
          | inr (f, failed) ↦ rw (root, failed) same
        ]
    | inr n ↦ rw n refl
  ]

  not_under : is_under creds_file creds_temp ≡ false
  unfolding is_under has_prefix bytes_eq
  not_under = refl

  -- the temporary file is written in full and takes the place of the credentials file
  load-write_creds_file :
      ((w : World) (args : List Bytes) → (env.exec w (codes "chown" ∷ args)).files ≡ w.files)
      → (users : List UserConfig) (w : World) → (write_creds_file users w).0 ≡ ok tt
      → load creds_file (write_creds_file users w).1.files ≡ some (write_creds users)
  unfolding write_creds_file ◌>>=◌
  load-write_creds_file leaves users w e =
      let w' = (mkdir_all (codes "/etc/slipgate") w).1 in
      let w'' = (write_file creds_temp (write_creds users) w').1 in
      ground (
        arith,
        written creds_temp (write_creds users) w',
        own_creds-files leaves w'',
        load-rename creds_temp creds_file (own_creds w'').1 not_under,
      )

  -- When `writeSocksCredsFile` succeeds for the users of a configuration, all plain (a nonempty name with no
  -- colon and no newline that does not begin with a space or '#', and a nonempty password that `ValidatePassword` accepts
  -- and that does not end in a space, in a line of less than 65536 bytes) and no two with one name, and chown leaves the
  -- files as they are, then the credentials file is there, the server reads it without an error, and
  -- what it reads gives every name the password of its user and no other name a password.
  pub write_creds_file-stored :
      ((w : World) (args : List Bytes) → (env.exec w (codes "chown" ∷ args)).files ≡ w.files)
      → (c : Config) (name : Bytes) (w : World) → All IsPlain c.users
      → Unique user_key c.users
      → (write_creds_file c.users w).0 ≡ ok tt
      → (content : Bytes) × ((creds : Credentials) × (load creds_file
              (write_creds_file c.users w).1.files
            ≡ some content)
          × (read_creds_file content ≡ some creds)
          × (load name creds ≡ password_of (get_user c name)))
  write_creds_file-stored leaves c name w plain distinct e =
      let (creds, read, known) = read_creds_file-write_creds c name plain distinct in
      (write_creds c.users, (creds, load-write_creds_file leaves c.users w e, read, known))
