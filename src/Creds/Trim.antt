-- ===== src/Creds/Trim.antt =====
-- Spaces at the end of a password in the credentials file of cmd/socks.go.
use slipgate.Prelude.{
  ℕ, ◌+◌, ◌≡◌, ◌≢◌, ◌<◌, refl, sym, ap, ◌∙◌, false, ◌||◌, List, [], ◌∷◌, ◌++◌, append_assoc, none,
  some, arith, leb, if◌then◌else◌, Bytes, codes, length, split, has_prefix, is_space, trim_space,
  trim_left, trim_right, trim_end, All, length-append, split-line,
}
use slipgate.Prelude.Table.{text_eq}
use slipgate.Config.{UserConfig, is_empty}
use slipgate.Config.Validation.{check_bytes, validate_password}
use slipgate.Creds.{write_creds, add_cred, read_line, read_lines, read_creds_file}
use slipgate.Creds.RoundTrip.{
  IsPlain, line_of, line_of-shape, trim_space-line, named, line-lines, check_bytes-lines,
  is_empty-last, read_lines-cons, write_creds-line, line_of-lines,
}

trim_right-space :
    (front : Bytes) (last : ℕ)
    → is_space last ≡ false
    → trim_right (front ++ (last ∷ 32 ∷ [])) ≡ front ++ (last ∷ [])
unfolding trim_right trim_end is_space
trim_right-space [] last ok = ground (arith, ok)
trim_right-space (c ∷ []) last ok = ground (arith, trim_right-space [] last ok)
trim_right-space (c ∷ d ∷ front) last ok = ground (arith, trim_right-space (d ∷ front) last ok)

check_bytes-space :
    (i : ℕ) (s : Bytes) → check_bytes i s ≡ none → check_bytes i (s ++ (32 ∷ [])) ≡ none
unfolding check_bytes
check_bytes-space i [] h = refl
check_bytes-space i (c ∷ s) h = ground (arith, check_bytes-space (i + 1) s)

-- The user with a space behind the password.
abbrev pub spaced : UserConfig → UserConfig
spaced u = record u { password = u.password ++ codes " " }

trim_space-spaced : (u : UserConfig) → IsPlain u → trim_space (line_of (spaced u)) ≡ line_of u
unfolding trim_space trim_left
trim_space-spaced u p =
    let shape : line_of (spaced u)
        ≡ p.first ∷ ((p.others ++ (58 ∷ p.front)) ++ (p.last ∷ 32 ∷ [])) =
      rw (p.name_is, p.password_is)
        (ap (λ (l : Bytes). p.first ∷ (p.others ++ (58 ∷ l)))
            (append_assoc p.front (p.last ∷ []) (32 ∷ []))
          ∙ ap (λ (l : Bytes). p.first ∷ l)
              (sym (append_assoc p.others (58 ∷ p.front) (p.last ∷ 32 ∷ [])))) in
    ap trim_space shape
    ∙ rw p.no_space (trim_right-space (p.first ∷ (p.others ++ (58 ∷ p.front))) p.last p.ends)
    ∙ sym (line_of-shape u p)

read_line-trimmed : (a b : Bytes) → trim_space a ≡ trim_space b → read_line a [] ≡ read_line b []
unfolding read_line
read_line-trimmed a b e =
    ap (λ (l : Bytes). if is_empty l || has_prefix l (codes "#") then [] else add_cred l []) e

-- A file of one line.
read_creds_file-line :
    (l : Bytes)
    → All (λ (c : ℕ). c ≢ 10) l
    → leb 65536 (length l) ≡ false
    → read_creds_file (l ++ (10 ∷ [])) ≡ some (read_line l [])
unfolding read_creds_file read_lines split read_line is_empty trim_space
read_creds_file-line l ok short =
    ap (λ (ls : List Bytes). read_lines ls []) (split-line l [] ok)
    ∙ read_lines-cons l ([] ∷ []) [] short

check_bytes-valid : (u : UserConfig) → IsPlain u → check_bytes 0 u.password ≡ none
unfolding validate_password
check_bytes-valid u p = ground (arith, p.valid)

validate_password-spaced :
    (u : UserConfig) → IsPlain u → validate_password (spaced u).password ≡ none
unfolding validate_password
validate_password-spaced u p =
    let named : is_empty (spaced u).password ≡ false = is_empty-last u.password 32 in
    rw named (check_bytes-space 0 u.password (check_bytes-valid u p))

write_creds-spaced :
    (u : UserConfig) → IsPlain u → write_creds (spaced u ∷ []) ≡ line_of (spaced u) ++ (10 ∷ [])
unfolding write_creds is_empty
write_creds-spaced u p =
    let name : is_empty u.username ≡ false = ground (arith, p.name_is) in
    rw (name, is_empty-last u.password 32)
      (sym (append_assoc u.username (58 ∷ (spaced u).password) (10 ∷ [])))

-- A space at the end of a password passes `ValidatePassword`, but is not read back: the file with it gives what the file without it
-- gives.
pub read_creds_file_trims :
    (u : UserConfig)
    → IsPlain u
    → length u.username + 2 + length u.password < 65536
    → (validate_password (spaced u).password ≡ none)
      × (read_creds_file (write_creds (spaced u ∷ [])) ≡ read_creds_file (write_creds (u ∷ [])))
unfolding write_creds
read_creds_file_trims u p fits =
    let lines = line-lines u.username (spaced u).password (named u p) (
      check_bytes-lines 0 (spaced u).password
        (check_bytes-space 0 u.password (check_bytes-valid u p))) in
    (
      validate_password-spaced u p,
      ap read_creds_file (write_creds-spaced u p)
          ∙ read_creds_file-line (line_of (spaced u)) lines (
              ground (
                arith,
                length-append u.username (58 ∷ (spaced u).password),
                length-append u.password (32 ∷ []),
                fits,
              ))
          ∙ ap some (
              read_line-trimmed (line_of (spaced u)) (line_of u)
                (trim_space-spaced u p ∙ sym (trim_space-line u p)))
          ∙ sym (
              read_creds_file-line (line_of u) (line_of-lines u p)
                (ground (arith, length-append u.username (58 ∷ u.password), fits)))
          ∙ ap read_creds_file (sym (write_creds-line u [] p)),
    )
