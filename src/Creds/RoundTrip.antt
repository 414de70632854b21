-- ===== src/Creds/RoundTrip.antt =====
-- `writeSocksCredsFile` of internal/proxy/microsocks.go against `readCredsFile` of cmd/socks.go.
use mathlib.Core.Path.{subst}
use slipgate.Prelude.{
  ℕ, suc, ◌+◌, ◌≡◌, ◌≢◌, ◌<◌, refl, sym, ap, ◌∙◌, true, false, List, [], ◌∷◌, ◌++◌, append_assoc,
  Option, none, some, arith, ltb, leb, Bytes, bytes_eq_iff, length, drop, index_byte, split,
  has_prefix, is_space, trim_space, trim_left, trim_right, trim_end, All, length-append,
  take-length-append, split-line,
}
use slipgate.Prelude.Table.{text_eq, load, store, load-store}
use slipgate.Config.{UserConfig, Config, is_empty}
use slipgate.Config.Store.{find_key, user_key, get_user}
use slipgate.Config.Store.Laws.{Unique}
use slipgate.Config.Validation.{check_bytes, validate_password}
use slipgate.Proxy.Socks5.{Credentials}
use slipgate.Creds.{write_creds, add_cred, read_line, read_lines, read_creds_file}

-- A byte that may stand in a name.
abbrev pub IsNameByte : ℕ → Type 0
IsNameByte c = (c ≢ 58) × (c ≢ 10)

-- A user whose line is read as it is written: the name has no colon and no newline, and does not begin with a space or '#';
-- the password passes `ValidatePassword` and does not end in a space; the line fits into the scanner's buffer.
pub record IsPlain (u : UserConfig) : Type 0 where
  pub first : ℕ
  pub others : Bytes
  pub front : Bytes
  pub last : ℕ
  pub name_is : u.username ≡ first ∷ others
  pub name_bytes : All IsNameByte (first ∷ others)
  pub no_space : is_space first ≡ false
  pub no_hash : first ≢ 35
  pub password_is : u.password ≡ front ++ (last ∷ [])
  pub ends : is_space last ≡ false
  pub valid : validate_password u.password ≡ none
  pub fits : length u.username + 1 + length u.password < 65536

index_byte-name :
    (name pass : Bytes)
    → All IsNameByte name
    → index_byte (name ++ (58 ∷ pass)) 58 ≡ some (length name)
unfolding index_byte
index_byte-name [] pass ok = refl
index_byte-name (c ∷ name) pass (ne, ok) = ground (arith, index_byte-name name pass ok, ne)

trim_right-last :
    (front : Bytes) (last : ℕ)
    → is_space last ≡ false
    → trim_right (front ++ (last ∷ [])) ≡ front ++ (last ∷ [])
unfolding trim_right trim_end
trim_right-last [] last ok = ground (arith, ok)
trim_right-last (c ∷ []) last ok = ground (arith, ok)
trim_right-last (c ∷ d ∷ front) last ok = ground (arith, trim_right-last (d ∷ front) last ok)

trim_space-kept :
    (first : ℕ) (front : Bytes) (last : ℕ)
    → is_space first ≡ false
    → is_space last ≡ false
    → trim_space (first ∷ (front ++ (last ∷ []))) ≡ first ∷ (front ++ (last ∷ []))
unfolding trim_space trim_left
trim_space-kept first front last ok ok' = rw ok (trim_right-last (first ∷ front) last ok')

pub check_bytes-lines : (i : ℕ) (s : Bytes) → check_bytes i s ≡ none → All (λ (c : ℕ). c ≢ 10) s
unfolding check_bytes
check_bytes-lines i [] h = tt
check_bytes-lines i (c ∷ s) h = (ground arith, check_bytes-lines (i + 1) s (ground arith))

abbrev pub line_of : UserConfig → Bytes
line_of u = u.username ++ (58 ∷ u.password)

pub line_of-shape :
    (u : UserConfig) (p : IsPlain u)
    → line_of u ≡ p.first ∷ ((p.others ++ (58 ∷ p.front)) ++ (p.last ∷ []))
line_of-shape u p =
    rw (p.name_is, p.password_is)
      (ap (λ (l : Bytes). p.first ∷ l) (sym (append_assoc p.others (58 ∷ p.front) (p.last ∷ []))))

pub trim_space-line : (u : UserConfig) → IsPlain u → trim_space (line_of u) ≡ line_of u
trim_space-line u p =
    subst (λ (l : Bytes). trim_space l ≡ l) (sym (line_of-shape u p))
      (trim_space-kept p.first (p.others ++ (58 ∷ p.front)) p.last p.no_space p.ends)

pub named : (u : UserConfig) → IsPlain u → All IsNameByte u.username
named u p = subst (All IsNameByte) (sym p.name_is) p.name_bytes

drop-line : (name pass : Bytes) → drop (length name + 1) (name ++ (58 ∷ pass)) ≡ pass
drop-line [] pass = refl
drop-line (c ∷ name) pass =
    let e : length (c ∷ name) + 1 ≡ suc (length name + 1) = omega arith in
    ap (λ (n : ℕ). drop n (c ∷ (name ++ (58 ∷ pass)))) e ∙ drop-line name pass

add_cred-line :
    (u : UserConfig) (creds : Credentials)
    → IsPlain u
    → add_cred (line_of u) creds ≡ store u.username u.password creds
unfolding add_cred
add_cred-line u creds p =
    let long : ltb 0 (length u.username) ≡ true = ground (arith, ap length p.name_is) in
    ground (
      arith,
      index_byte-name u.username u.password (named u p),
      long,
      take-length-append u.username (58 ∷ u.password),
      drop-line u.username u.password,
    )

read_line-plain :
    (u : UserConfig) (creds : Credentials)
    → IsPlain u
    → read_line (line_of u) creds ≡ store u.username u.password creds
unfolding read_line is_empty has_prefix
read_line-plain u creds p =
    rw (trim_space-line u p)
      (rw p.name_is (ground (arith, p.no_hash, add_cred-line u creds p, p.name_is)))

-- The credentials of a list of users: of two users with one name the later counts.
unfoldable pub creds_of : List UserConfig → Credentials → Credentials
creds_of [] creds = creds
creds_of (u ∷ us) creds = creds_of us (store u.username u.password creds)

pub is_empty-last : (front : Bytes) (last : ℕ) → is_empty (front ++ (last ∷ [])) ≡ false
unfolding is_empty
is_empty-last [] last = refl
is_empty-last (c ∷ front) last = refl

pub line-lines :
    (name pass : Bytes)
    → All IsNameByte name
    → All (λ (c : ℕ). c ≢ 10) pass
    → All (λ (c : ℕ). c ≢ 10) (name ++ (58 ∷ pass))
line-lines [] pass ok ok' = ((λ e. omega (arith, e)), ok')
line-lines (c ∷ name) pass (ne, ok) ok' = (ne.1, line-lines name pass ok ok')

pub write_creds-line :
    (u : UserConfig) (us : List UserConfig)
    → IsPlain u
    → write_creds (u ∷ us) ≡ line_of u ++ (10 ∷ write_creds us)
unfolding write_creds is_empty
write_creds-line u us p =
    let name : is_empty u.username ≡ false = ground (arith, p.name_is) in
    let pass : is_empty u.password ≡ false =
      ap is_empty p.password_is ∙ is_empty-last p.front p.last in
    rw (name, pass) (sym (append_assoc u.username (58 ∷ u.password) (10 ∷ write_creds us)))

pub line_of-lines : (u : UserConfig) → IsPlain u → All (λ (c : ℕ). c ≢ 10) (line_of u)
unfolding validate_password
line_of-lines u p =
    line-lines u.username u.password (named u p)
      (check_bytes-lines 0 u.password (ground (arith, p.valid)))

pub read_lines-cons :
    (l : Bytes) (ls : List Bytes) (creds : Credentials)
    → leb 65536 (length l) ≡ false
    → read_lines (l ∷ ls) creds ≡ read_lines ls (read_line l creds)
unfolding read_lines
read_lines-cons l ls creds short = rw short refl

read_lines-written :
    (us : List UserConfig) (creds : Credentials)
    → All IsPlain us
    → read_lines (split (write_creds us) 10) creds ≡ some (creds_of us creds)
unfolding read_lines creds_of split write_creds read_line is_empty trim_space
read_lines-written [] creds ok = refl
read_lines-written (u ∷ us) creds (p, ok) =
    let first : split (write_creds (u ∷ us)) 10 ≡ line_of u ∷ split (write_creds us) 10 =
      ap (λ (content : Bytes). split content 10) (write_creds-line u us p)
      ∙ split-line (line_of u) (write_creds us) (line_of-lines u p) in
    let short : leb 65536 (length (line_of u)) ≡ false =
      ground (arith, length-append u.username (58 ∷ u.password), p.fits) in
    let later = read_lines-written us (store u.username u.password creds) ok in
    ap (λ (ls : List Bytes). read_lines ls creds) first
    ∙ read_lines-cons (line_of u) (split (write_creds us) 10) creds short
    ∙ ap (λ (m : Credentials). read_lines (split (write_creds us) 10) m) (read_line-plain u creds p)
    ∙ later

-- The password of the user of this name, if there is one.
abbrev pub password_of : Option UserConfig → Option Bytes
password_of none = none
password_of (some u) = some u.password

load-creds_of :
    (name : Bytes) (us : List UserConfig) (creds : Credentials)
    → Unique user_key us
    → load name (creds_of us creds)
      ≡ elim (find_key user_key name us) [ none ↦ load name creds | some u ↦ some u.password ]
unfolding creds_of find_key
load-creds_of name [] creds ok = refl
load-creds_of name (u ∷ us) creds (fresh, ok) = ground (
  arith,
  load-creds_of name us (store u.username u.password creds) ok,
  load-store u.username name u.password creds,
  bytes_eq_iff u.username name,
  fresh,
)

-- If every user of a configuration is plain and no two have one name, then the file that is written for them is read without an
-- error, and the credentials that are read give every name the password of its user and no other name a password.
pub read_creds_file-write_creds :
    (c : Config) (name : Bytes)
    → All IsPlain c.users
    → Unique user_key c.users
    → (creds : Credentials) × (read_creds_file (write_creds c.users) ≡ some creds)
      × (load name creds ≡ password_of (get_user c name))
unfolding read_creds_file get_user load
read_creds_file-write_creds c name plain distinct = (
  creds_of c.users [],
  read_lines-written c.users [] plain,
  ground (arith, load-creds_of name c.users [] distinct),
)
