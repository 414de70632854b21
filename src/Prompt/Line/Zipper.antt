-- ===== src/Prompt/Line/Zipper.antt =====
-- An independent description of the line editor of internal/prompt/readline.go: the text on both
-- sides of the cursor, with no index; and what is left of it in the editor's buffer and position.
use slipgate.Prelude.{
  ℕ, suc, ◌+◌, ◌-◌, ◌≡◌, refl, sym, ap, ◌∙◌, true, false, [], ◌∷◌, ◌++◌, append-nil, arith, ltb,
  Bytes, length, take, drop, take-prefix, drop-prefix,
}
use slipgate.Prompt.Line.{
  Line, Key, enter, interrupt, end_of_file, backspace, left, right, home, line_end, delete_at,
  kill_start, kill_end, insert, escape, unknown, press,
}

-- the text before the cursor, its last byte first, and the text from the cursor on
pub record Zipper : Type 0 where
  pub before : Bytes
  pub after : Bytes

unfoldable pub onto : Bytes → Bytes → Bytes
onto [] ys = ys
onto (x ∷ xs) ys = onto xs (x ∷ ys)

abbrev start : Zipper
start = record { before = []; after = [] }

-- What a key means, on the two sides.
unfoldable pub act : Key → Zipper → Zipper
unfolding onto
act backspace z = elim z.before [ [] ↦ z | c ∷ cs ↦ record { before = cs; after = z.after } ]
act left z = elim z.before [ [] ↦ z | c ∷ cs ↦ record { before = cs; after = c ∷ z.after } ]
act right z = elim z.after [ [] ↦ z | c ∷ cs ↦ record { before = c ∷ z.before; after = cs } ]
act home z = record { before = []; after = onto z.before z.after }
act line_end z = record { before = onto z.after z.before; after = [] }
act delete_at z = elim z.after [ [] ↦ z | c ∷ cs ↦ record { before = z.before; after = cs } ]
act kill_start z = record { before = []; after = z.after }
act kill_end z = record { before = z.before; after = [] }
act (insert b) z = record { before = b ∷ z.before; after = z.after }
act enter z = z
act interrupt z = z
act end_of_file z = z
act escape z = z
act unknown z = z

-- The line that the two sides make.
unfoldable pub line_of : Zipper → Line
unfolding onto
line_of z = record { buf = onto z.before z.after; pos = length z.before }

onto-append : (xs ys zs : Bytes) → onto xs ys ++ zs ≡ onto xs (ys ++ zs)
unfolding onto
onto-append [] ys zs = refl
onto-append (x ∷ xs) ys zs = onto-append xs (x ∷ ys) zs

length-onto : (xs ys : Bytes) → length (onto xs ys) ≡ length xs + length ys
unfolding onto
length-onto [] ys = omega arith
length-onto (x ∷ xs) ys = omega (arith, length-onto xs (x ∷ ys))

-- the text before the cursor is in front
onto-split : (xs ys : Bytes) → onto xs ys ≡ onto xs [] ++ ys
onto-split xs ys = sym (onto-append xs [] ys)

onto-onto : (xs ys zs : Bytes) → onto (onto xs ys) zs ≡ onto ys (xs ++ zs)
unfolding onto
onto-onto [] ys zs = refl
onto-onto (x ∷ xs) ys zs = onto-onto xs (x ∷ ys) zs

length-onto-nil : (xs : Bytes) → length (onto xs []) ≡ length xs
length-onto-nil xs = omega (arith, length-onto xs [])

take-onto : (xs ys : Bytes) → take (length xs) (onto xs ys) ≡ onto xs []
take-onto xs ys =
    rw (onto-split xs ys) (take-prefix (length xs) (onto xs []) ys (length-onto-nil xs))

drop-onto : (xs ys : Bytes) → drop (length xs) (onto xs ys) ≡ ys
drop-onto xs ys =
    rw (onto-split xs ys) (drop-prefix (length xs) (onto xs []) ys (length-onto-nil xs))

-- Deleting the byte before the cursor, and the one at it.
cut_before :
    (c : ℕ) (cs ys : Bytes)
    → take (length cs) (onto cs (c ∷ ys)) ++ drop (suc (length cs)) (onto cs (c ∷ ys)) ≡ onto cs ys
unfolding onto
cut_before c cs ys = rw (take-onto cs (c ∷ ys), drop-onto (c ∷ cs) ys) (sym (onto-split cs ys))

cut_at :
    (xs : Bytes) (c : ℕ) (cs : Bytes)
    → take (length xs) (onto xs (c ∷ cs)) ++ drop (suc (length xs)) (onto xs (c ∷ cs)) ≡ onto xs cs
unfolding onto
cut_at xs c cs = rw (take-onto xs (c ∷ cs), drop-onto (c ∷ xs) cs) (sym (onto-split xs cs))

insert_at :
    (xs : Bytes) (c : ℕ) (ys : Bytes)
    → take (length xs) (onto xs ys) ++ (c ∷ drop (length xs) (onto xs ys)) ≡ onto xs (c ∷ ys)
insert_at xs c ys = rw (take-onto xs ys, drop-onto xs ys) (sym (onto-split xs (c ∷ ys)))

-- the cursor is inside the line when there is something after it
inside : (xs : Bytes) (c : ℕ) (cs : Bytes) → ltb (length xs) (length (onto xs (c ∷ cs))) ≡ true
inside xs c cs = ground (arith, length-onto xs (c ∷ cs))

at_end : (xs : Bytes) → ltb (length xs) (length (onto xs [])) ≡ false
at_end xs = ground (arith, length-onto xs [])

abbrev pub sides : Bytes → Bytes → Zipper
sides b a = record { before = b; after = a }

line_eq :
    {s t : Bytes} {m n : ℕ}
    → s ≡ t
    → m ≡ n
    → ◌≡◌ {A = Line} (record { buf = s; pos = m }) (record { buf = t; pos = n })
line_eq {t = t} {m = m} e f =
    ap (λ (s : Bytes). record { buf = s; pos = m }) e
    ∙ ap (λ (n : ℕ). record { buf = t; pos = n }) f

above_zero : (n : ℕ) → ltb 0 (suc n) ≡ true
above_zero n = ground arith

before_suc : (n : ℕ) → suc n - 1 ≡ n
before_suc n = omega arith

next_suc : (n : ℕ) → n + 1 ≡ suc n
next_suc n = omega arith

press-sides : (k : Key) (b a : Bytes) → press k (line_of (sides b a)) ≡ line_of (act k (sides b a))
unfolding press act line_of
press-sides backspace [] a = refl
press-sides backspace (c ∷ cs) a =
    rw (above_zero (length cs), before_suc (length cs)) (line_eq (cut_before c cs a) refl)
press-sides left [] a = refl
press-sides left (c ∷ cs) a = rw (above_zero (length cs)) (line_eq refl (omega arith))
press-sides right b [] = rw (at_end b) refl
press-sides right b (c ∷ cs) = rw (inside b c cs) (line_eq refl (omega arith))
press-sides home b a = refl
press-sides line_end b a =
    line_eq (sym (onto-onto a b [] ∙ ap (onto b) (append-nil a)))
      (omega (arith, length-onto a b, length-onto b a))
press-sides delete_at b [] = rw (at_end b) refl
press-sides delete_at b (c ∷ cs) =
    rw (inside b c cs, next_suc (length b)) (line_eq (cut_at b c cs) refl)
press-sides kill_start b a = line_eq (drop-onto b a) refl
press-sides kill_end b a = line_eq (take-onto b a) refl
press-sides (insert c) b a = line_eq (insert_at b c a) (omega arith)
press-sides enter b a = refl
press-sides interrupt b a = refl
press-sides end_of_file b a = refl
press-sides escape b a = refl
press-sides unknown b a = refl

-- Each key does to the buffer and the position what it does to the two sides.
pub press-act : (k : Key) (z : Zipper) → press k (line_of z) ≡ line_of (act k z)
press-act k z = press-sides k z.before z.after
