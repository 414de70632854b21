-- ===== src/Proxy/Socks5/Auth.antt =====
-- `handleConn` of internal/proxy/socks5.go with credentials on the server, for any client.
use mathlib.Core.Path.{subst}
use slipgate.Prelude.{
  ℕ, ◌≡◌, ◌⊎◌, inl, inr, refl, sym, ap, ◌∙◌, true, false, [], ◌∷◌, ◌++◌, append_assoc, some, arith,
  ltb, ◌==◌, Bytes, bytes_eq, bytes_eq_iff, length, take, drop, get_or, take-append-drop,
  length-take, Bool-cases, Option-cases,
}
use slipgate.Prelude.Table.{text_eq, load}
use slipgate.Proxy.Stream.{next, stop, read_full}
use slipgate.Proxy.Socks5.Client.{greeting, login}
use slipgate.Proxy.Socks5.{
  Server, has_auth, check_credential, Dialler, authenticate, greet, choose_method, Session, closed,
  refused, relayed, handshake, finish, handle_conn,
}

-- A read ends the connection, or gives the front of the input.
read_full-cases :
    (n : ℕ) (input output : Bytes)
    → (read_full n input output ≡ stop output)
      ⊎ ((bytes : Bytes) × (rest : Bytes) × (input ≡ bytes ++ rest)
          × (length bytes ≡ n)
          × (read_full n input output ≡ next bytes rest output))
unfolding read_full
read_full-cases n input output = elim (Bool-cases (ltb (length input) n)) [
  | inl short ↦ inl (rw short)
  | inr enough ↦ inr (
    take n input,
    drop n input,
    sym (take-append-drop n input),
    ground (arith, length-take n input),
    rw enough,
  )
]

two_bytes : (xs : Bytes) → length xs ≡ 2 → xs ≡ get_or xs 0 0 ∷ get_or xs 1 0 ∷ []
two_bytes [] h = absurd (omega arith)
two_bytes (a ∷ []) h = absurd (omega arith)
two_bytes (a ∷ b ∷ []) h = refl
two_bytes (a ∷ b ∷ c ∷ xs) h = absurd (omega arith)

one_byte : (xs : Bytes) → length xs ≡ 1 → xs ≡ get_or xs 0 0 ∷ []
one_byte [] h = absurd (omega arith)
one_byte (a ∷ []) h = refl
one_byte (a ∷ b ∷ xs) h = absurd (omega arith)

-- An accepted greeting has the version 5, and is answered nothing yet.
greet-cases :
    (input output : Bytes)
    → ((o : Bytes) × (greet input output ≡ stop o))
      ⊎ ((methods : Bytes) × (rest : Bytes) × (input ≡ greeting methods ++ rest)
          × (greet input output ≡ next tt rest output))
unfolding greet
greet-cases input output = elim (read_full-cases 2 input output) [
  | inl end ↦ inl (output, ground (arith, end))
  | inr (head, i, front, size, read) ↦ elim (read_full-cases (get_or head 1 0) i output) [
    | inl end ↦ inl (output, ground (arith, read, end))
    | inr (methods, rest, front2, size2, read2) ↦ elim (Bool-cases (get_or head 0 0 == 5)) [
      | inr other ↦ inl (output, ground (arith, read))
      | inl five ↦
          let shape : head ≡ 5 ∷ length methods ∷ [] = ground (arith, two_bytes head size) in
          inr (
            methods,
            rest,
            front
                ∙ ap (λ (b : Bytes). b ++ i) shape
                ∙ ap (λ (b : Bytes). 5 ∷ length methods ∷ b) front2,
            ground (arith, read, read2),
          )
    ]
  ]
]

login-append :
    (input head user plen pass rest i i2 i3 : Bytes)
    → input ≡ head ++ i
    → i ≡ user ++ i2
    → i2 ≡ plen ++ i3
    → i3 ≡ pass ++ rest
    → head ≡ 1 ∷ length user ∷ []
    → plen ≡ length pass ∷ []
    → input ≡ login user pass ++ rest
login-append input head user plen pass rest i i2 i3 e1 e2 e3 e4 h p =
    e1
    ∙ ap (λ (b : Bytes). b ++ i) h
    ∙ ap (λ (b : Bytes). 1 ∷ length user ∷ b)
        (e2
          ∙ ap (λ (b : Bytes). user ++ b)
              (e3 ∙ ap (λ (b : Bytes). b ++ i3) p ∙ ap (λ (b : Bytes). length pass ∷ b) e4)
          ∙ sym (append_assoc user (length pass ∷ pass) rest))

-- the verdict on a pair that was read
check-cases :
    (s : Server) (user pass : Bytes)
    → (check_credential s user pass ≡ false)
      ⊎ ((check_credential s user pass ≡ true) × (load user s.credentials ≡ some pass))
unfolding check_credential
check-cases s user pass = elim (Option-cases (load user s.credentials)) [
  | inl unknown ↦ inl (ground (arith, unknown))
  | inr (expected, e) ↦ elim (Bool-cases (bytes_eq expected pass)) [
    | inr wrong ↦ inl (ground (arith, e, wrong))
    | inl right ↦ inr (ground (arith, e, right), e ∙ ap some ((bytes_eq_iff expected pass).0 right))
  ]
]

authenticate-cases :
    (s : Server) (input output : Bytes)
    → ((o : Bytes) × (authenticate s input output ≡ stop o))
      ⊎ ((user : Bytes) × (pass : Bytes) × (rest : Bytes) × (input ≡ login user pass ++ rest)
          × (load user s.credentials ≡ some pass)
          × (authenticate s input output ≡ next tt rest (output ++ (1 ∷ 0 ∷ []))))
unfolding authenticate
authenticate-cases s input output = elim (read_full-cases 2 input output) [
  | inl end ↦ inl (output, ground (arith, end))
  | inr (head, i, front, size, read) ↦ elim (Bool-cases (get_or head 0 0 == 1)) [
    | inr other ↦ inl (output ++ (1 ∷ 1 ∷ []), ground (arith, read))
    | inl one ↦ elim (read_full-cases (get_or head 1 0) i output) [
      | inl end ↦ inl (output, ground (arith, read, end))
      | inr (user, i2, front2, size2, read2) ↦ elim (read_full-cases 1 i2 output) [
        | inl end ↦ inl (output, ground (arith, read, read2, end))
        | inr (plen, i3, front3, size3, read3) ↦
            elim (read_full-cases (get_or plen 0 0) i3 output) [
              | inl end ↦ inl (output, ground (arith, read, read2, read3, end))
              | inr (pass, rest, front4, size4, read4) ↦ elim (check-cases s user pass) [
                | inl wrong ↦
                    inl (output ++ (1 ∷ 1 ∷ []), ground (arith, read, read2, read3, read4, wrong))
                | inr (right, known) ↦
                    let head_is : head ≡ 1 ∷ length user ∷ [] =
                      ground (arith, two_bytes head size) in
                    let plen_is : plen ≡ length pass ∷ [] = ground (arith, one_byte plen size3) in
                    inr (
                      user,
                      pass,
                      rest,
                      login-append input head user plen pass rest i i2 i3 front front2 front3 front4
                          head_is plen_is,
                      known,
                      ground (arith, read, read2, read3, read4, right),
                    )
              ]
            ]
      ]
    ]
  ]
]

-- A connection on which a target was dialled.
abbrev pub Dials : Session → Type 0
Dials (closed output) = ⊥
Dials (refused output address port) = Unit {0}
Dials (relayed output address port rest) = Unit {0}

-- The client's input begins with a greeting and a user and password that the server knows.
pub record HasLogin (s : Server) (input : Bytes) : Type 0 where
  pub methods : Bytes
  pub user : Bytes
  pub pass : Bytes
  pub rest : Bytes
  pub input_is : input ≡ greeting methods ++ (login user pass ++ rest)
  pub known : load user s.credentials ≡ some pass

-- If the server has credentials when the client has sent its greeting, then a target is dialled, whether it answers or not, only for a client
-- that has sent a user and password that are among the server's credentials when they are compared.
pub handle_conn-HasLogin :
    (at_greeting at_check : Server) (dial : Dialler) (input : Bytes)
    → has_auth at_greeting ≡ true
    → Dials (handle_conn at_greeting at_check dial input)
    → HasLogin at_check input
unfolding handle_conn finish handshake choose_method
handle_conn-HasLogin at_greeting at_check dial input auth dials = elim (greet-cases input []) [
  | inl (o, end) ↦ absurd (ended o (ground (arith, end)))
  | inr (methods, i, front, greeted) ↦ elim (authenticate-cases at_check i (5 ∷ 2 ∷ [])) [
    | inl (o, end) ↦ absurd (ended o (ground (arith, greeted, auth, end)))
    | inr (user, pass, rest, front2, known, passed) ↦ record {
      methods = methods;
      user = user;
      pass = pass;
      rest = rest;
      input_is = front ∙ ap (λ (b : Bytes). greeting methods ++ b) front2;
      known = known;
    }
  ]
]
  where
    ended : (o : Bytes) → handle_conn at_greeting at_check dial input ≡ closed o → ⊥
    ended o e = subst Dials e dials
