-- ===== src/Host/Rename.antt =====
-- What is read under the new name after os.Rename.
use slipgate.Prelude.{
  ◌≡◌, refl, true, false, [], ◌∷◌, ◌++◌, arith, Bytes, codes, bytes_eq, bytes_eq_iff, has_prefix,
  length, drop, Bool-cases, inl, inr,
}
use slipgate.Prelude.Table.{load, text_eq}
use slipgate.Config.{is_empty}
use slipgate.Host.{World, Env, Files, noted, ok}
use slipgate.Host.Machine.{is_under, files_outside, moved, moved_files, rename, change}

bytes_eq-append : (p s : Bytes) → bytes_eq (p ++ s) p ≡ is_empty s
unfolding bytes_eq is_empty
bytes_eq-append [] [] = refl
bytes_eq-append [] (c ∷ s) = refl
bytes_eq-append (c ∷ p) s = ground (arith, bytes_eq-append p s)

has_prefix-append : (s p q : Bytes) → has_prefix s (p ++ q) ≡ true → has_prefix s p ≡ true
unfolding has_prefix
has_prefix-append s [] q h = refl
has_prefix-append [] (c ∷ p) q h = h
has_prefix-append (d ∷ s) (c ∷ p) q h = ground (arith, has_prefix-append s p q)

bytes_eq-prefix :
    (s p : Bytes) → has_prefix s p ≡ true → bytes_eq s p ≡ is_empty (drop (length p) s)
unfolding has_prefix bytes_eq is_empty
bytes_eq-prefix [] [] h = refl
bytes_eq-prefix (d ∷ s) [] h = refl
bytes_eq-prefix [] (c ∷ p) h = cc
bytes_eq-prefix (d ∷ s) (c ∷ p) h = ground (arith, bytes_eq-prefix s p)

has_prefix_refl : (s : Bytes) → has_prefix s s ≡ true
unfolding has_prefix
has_prefix_refl [] = refl
has_prefix_refl (c ∷ s) = ground (arith, has_prefix_refl s)

is_under-has_prefix : (dir path : Bytes) → is_under dir path ≡ true → has_prefix path dir ≡ true
unfolding is_under
is_under-has_prefix dir path h = elim (Bool-cases (bytes_eq path dir)) [
  | inl e ↦ rw ((bytes_eq_iff path dir).0 e) (has_prefix_refl dir)
  | inr n ↦ has_prefix-append path dir (codes "/") (ground arith)
]

-- a name that is not under the new one takes the new name exactly if it was the old one
moved-new :
    (old new path : Bytes)
    → is_under new path ≡ false
    → bytes_eq (moved old new path) new ≡ bytes_eq path old
unfolding moved is_under
moved-new old new path outside = elim (Bool-cases (is_under old path)) [
  | inl under ↦ ground (
    arith,
    bytes_eq-append new (drop (length old) path),
    bytes_eq-prefix path old,
    is_under-has_prefix old path,
  )
  | inr n ↦ ground arith
]

load-moved_files :
    (old new : Bytes) (files : Files)
    → load new (moved_files old new (files_outside new files)) ≡ load old (files_outside new files)
unfolding load moved_files files_outside
load-moved_files old new [] = refl
load-moved_files old new ((path, content) ∷ files) =
    ground (arith, load-moved_files old new files, moved-new old new path)

load-files_outside :
    (dir path : Bytes) (files : Files)
    → is_under dir path ≡ false
    → load path (files_outside dir files) ≡ load path files
unfolding load files_outside
load-files_outside dir path [] n = refl
load-files_outside dir path ((p, content) ∷ files) n =
    ground (arith, load-files_outside dir path files n, bytes_eq_iff p path)

module _ ⦃env : Env⦄ where
  -- the content of the old name, unless that is in a directory of the new name
  pub load-rename :
      (old new : Bytes) (w : World)
      → is_under new old ≡ false
      → (rename old new w).0 ≡ ok tt
      → load new (rename old new w).1.files ≡ load old w.files
  unfolding rename change noted
  load-rename old new w n e =
      ground (arith, load-moved_files old new w.files, load-files_outside new old w.files n)
