-- ===== src/Dns/Verify/Question.antt =====
-- The questions that `handleVerify` of internal/dnsrouter/verify.go takes, in the wire format.
use mathlib.Core.Path.{subst}
use slipgate.Prelude.{
  ℕ, zero, suc, ◌+◌, ◌≤◌, ◌<◌, ◌≡◌, inl, inr, refl, sym, ap, ◌∙◌, false, List, [], ◌∷◌, ◌++◌, some,
  arith, leb, ltb, ◌==◌, Bytes, to_lower, length, take, drop, slice, get_or, get_u16, All,
  Bool-cases, Option-cases, length-take, length-drop, length-append, take-append-drop, get_or-at,
  length-at, drop-at, drop-drop, take-length-append, drop-length-append, append-nil, append_assoc,
  drop-prefix, get_u16-drop,
}
use slipgate.Dns.Parser.RoundTrip.{wire_labels, IsLabel, length-wire}
use slipgate.Dns.Verify.{read_question, txt_question}

abbrev pub lower_all : List Bytes → List Bytes
lower_all [] = []
lower_all (l ∷ ls) = to_lower l ∷ lower_all ls

-- A name of the wire format from `offset` on, of which `got` is `labels` and the labels in lower case; it ends at `end`.
record WireName (packet : Bytes) (offset : ℕ) (labels got : List Bytes) (end : ℕ) : Type 0 where
  pub raws : List Bytes
  pub raws_ok : All IsLabel raws
  pub got_is : got ≡ labels ++ lower_all raws
  pub at : drop offset packet ≡ wire_labels raws ++ (0 ∷ drop end packet)
  pub end_is : end ≡ offset + (length (wire_labels raws) + 1)

drop-get_or : (n : ℕ) (xs : Bytes) → n < length xs → drop n xs ≡ get_or xs n 0 ∷ drop (suc n) xs
drop-get_or n [] h = absurd (omega arith)
drop-get_or zero (x ∷ xs) h = refl
drop-get_or (suc n) (x ∷ xs) h = drop-get_or n xs (omega arith)

drop-here : (n : ℕ) (xs : Bytes) → n < length xs → drop n xs ≡ get_or xs n 0 ∷ drop (n + 1) xs
drop-here n xs h =
    let e : suc n ≡ n + 1 = omega arith in
    drop-get_or n xs h ∙ ap (λ (m : ℕ). get_or xs n 0 ∷ drop m xs) e

-- a label of the packet, behind its length
drop-label :
    (packet : Bytes) (offset : ℕ)
    → offset + 1 + get_or packet offset 0 ≤ length packet
    → (length (slice packet (offset + 1) (get_or packet offset 0)) ≡ get_or packet offset 0)
      × (drop offset packet
          ≡ get_or packet offset 0
            ∷ (slice packet (offset + 1) (get_or packet offset 0)
                ++ drop (offset + 1 + get_or packet offset 0) packet))
drop-label packet offset fits =
    let len = get_or packet offset 0 in
    let behind = drop (offset + 1) packet in
    (
      omega (arith, length-take len behind, length-drop (offset + 1) packet),
      drop-here offset packet (omega arith)
          ∙ ap (◌∷◌ len) (
              sym (take-append-drop len behind)
              ∙ ap (λ (b : Bytes). take len behind ++ b) (sym (drop-drop (offset + 1) len packet))),
    )

WireName-label :
    (packet : Bytes) (offset : ℕ) (labels got : List Bytes) (end : ℕ)
    → 0 < get_or packet offset 0
    → get_or packet offset 0 < 192
    → offset + 1 + get_or packet offset 0 ≤ length packet
    → WireName packet
        (offset + 1 + get_or packet offset 0)
        (labels ++ (to_lower (slice packet (offset + 1) (get_or packet offset 0)) ∷ []))
        got
        end
    → WireName packet offset labels got end
WireName-label packet offset labels got end pos small fits n =
    let l = slice packet (offset + 1) (get_or packet offset 0) in
    let (size, here) = drop-label packet offset fits in
    record {
      raws = l ∷ n.raws;
      raws_ok = ((omega arith, omega arith), n.raws_ok);
      got_is = n.got_is ∙ append_assoc labels (to_lower l ∷ []) (lower_all n.raws);
      at =
          here
          ∙ ap (λ (b : Bytes). get_or packet offset 0 ∷ (l ++ b)) n.at
          ∙ ap (◌∷◌ (get_or packet offset 0))
              (sym (append_assoc l (wire_labels n.raws) (0 ∷ drop end packet)))
          ∙ ap (λ (len : ℕ). len ∷ ((l ++ wire_labels n.raws) ++ (0 ∷ drop end packet))) (sym size);
      end_is = omega (arith, n.end_is, length-append l (wire_labels n.raws));
    }

read_question-WireName :
    (fuel : ℕ) (packet : Bytes) (offset : ℕ) (labels got : List Bytes) (end : ℕ)
    → read_question fuel packet offset labels ≡ some (got, end)
    → end < length packet
    → WireName packet offset labels got end
unfolding read_question
read_question-WireName zero packet offset labels got end h lt = cc
read_question-WireName (suc fuel) packet offset labels got end h lt =
    let len = get_or packet offset 0 in
    elim (Bool-cases (leb (length packet) offset)) [
      | inl past ↦ absurd (ground arith)
      | inr inside ↦ elim (Bool-cases (len == 0)) [
        | inl last ↦
            let ends : offset + 1 ≡ end = ground arith in
            let zero_there : len ≡ 0 = ground arith in
            record {
              raws = [];
              raws_ok = tt;
              got_is = sym (append-nil labels ∙ ground arith);
              at =
                  drop-here offset packet (ground arith)
                  ∙ ap (λ (c : ℕ). c ∷ drop (offset + 1) packet) zero_there
                  ∙ ap (λ (m : ℕ). 0 ∷ drop m packet) ends;
              end_is = sym ends ∙ omega arith;
            }
        | inr more ↦
            WireName-label packet offset labels got end (ground arith) (ground arith) (ground arith)
              (read_question-WireName fuel packet (offset + 1 + len)
                (labels ++ (to_lower (slice packet (offset + 1) len) ∷ [])) got end (ground arith)
                lt)
      ]
    ]

-- A query with one TXT question: behind the header of 12 bytes, labels of 1 to 191 bytes, the end of the name, the
-- type 16 and a class; `labels` are the labels in lower case and `q_end` is the end of the question.
pub record TxtQuery (packet : Bytes) (labels : List Bytes) (q_end : ℕ) : Type 0 where
  pub header : Bytes
  pub raws : List Bytes
  pub class_high : ℕ
  pub class_low : ℕ
  pub rest : Bytes
  pub packet_is :
      packet ≡ header ++ (wire_labels raws ++ (0 ∷ 0 ∷ 16 ∷ class_high ∷ class_low ∷ rest))
  pub length-header : length header ≡ 12
  pub raws_ok : All IsLabel raws
  pub labels_are : labels ≡ lower_all raws
  pub is_query : get_or packet 2 0 < 128
  pub one_question : get_u16 packet 4 ≡ 1
  pub ends : q_end ≡ 12 + (length (wire_labels raws) + 5)

-- the type 16 and the class at an offset
drop-txt :
    (packet : Bytes) (offset : ℕ)
    → offset + 4 ≤ length packet
    → get_u16 packet offset ≡ 16
    → drop offset packet
      ≡ 0
        ∷ 16
        ∷ get_or packet (offset + 1 + 1) 0
        ∷ get_or packet (offset + 1 + 1 + 1) 0
        ∷ drop (offset + 1 + 1 + 1 + 1) packet
drop-txt packet offset fits is_txt =
    let b = drop-here offset packet (omega arith) in
    let c = drop-here (offset + 1) packet (omega arith) in
    let d = drop-here (offset + 1 + 1) packet (omega arith) in
    let e = drop-here (offset + 1 + 1 + 1) packet (omega arith) in
    let high : get_or packet offset 0 ≡ 0 = omega arith in
    let low : get_or packet (offset + 1) 0 ≡ 16 = omega arith in cc

WireName-TxtQuery :
    (packet : Bytes) (got : List Bytes) (end : ℕ)
    → WireName packet 12 [] got end
    → 12 ≤ length packet
    → get_or packet 2 0 < 128
    → get_u16 packet 4 ≡ 1
    → end + 4 ≤ length packet
    → get_u16 packet end ≡ 16
    → TxtQuery packet got (end + 4)
WireName-TxtQuery packet got end name long flag one fits is_txt = record {
  header = take 12 packet;
  raws = name.raws;
  class_high = get_or packet (end + 1 + 1) 0;
  class_low = get_or packet (end + 1 + 1 + 1) 0;
  rest = drop (end + 1 + 1 + 1 + 1) packet;
  packet_is =
      sym (take-append-drop 12 packet)
      ∙ ap (λ (b : Bytes). take 12 packet ++ b) name.at
      ∙ ap (λ (b : Bytes). take 12 packet ++ (wire_labels name.raws ++ (0 ∷ b)))
          (drop-txt packet end fits is_txt);
  length-header = omega (arith, length-take 12 packet);
  raws_ok = name.raws_ok;
  labels_are = name.got_is;
  is_query = flag;
  one_question = one;
  ends = omega (arith, name.end_is);
}

-- What the checks of `handleVerify` let through is such a query.
pub txt_question-TxtQuery :
    (packet : Bytes) (labels : List Bytes) (q_end : ℕ)
    → txt_question packet ≡ some (labels, q_end)
    → TxtQuery packet labels q_end
unfolding txt_question
txt_question-TxtQuery packet labels q_end h =
    elim (Option-cases (read_question (suc (length packet)) packet 12 [])) [
      | inl e ↦ absurd (ground arith)
      | inr ((got, end), e) ↦
          let h' = rw (e, txt_question) at h in
          let fits : end + 4 ≤ length packet = ground arith in
          let is_txt : get_u16 packet end ≡ 16 = ground arith in
          let same : got ≡ labels = ground arith in
          let ends : end + 4 ≡ q_end = ground arith in
          let name =
            read_question-WireName (suc (length packet)) packet 12 [] got end e (omega arith) in
          subst (λ (ls : List Bytes). TxtQuery packet ls q_end) same
            (subst (TxtQuery packet got) ends (
              WireName-TxtQuery packet got end name (ground arith) (ground arith) (ground arith)
                fits is_txt))
    ]

-- One round of the loop at a label.
read_question-label :
    (fuel : ℕ) (packet : Bytes) (offset : ℕ) (labels : List Bytes) (l rest : Bytes)
    → IsLabel l
    → drop offset packet ≡ length l ∷ (l ++ rest)
    → read_question (suc fuel) packet offset labels
      ≡ read_question fuel packet (offset + 1 + length l) (labels ++ (to_lower l ∷ []))
unfolding read_question
read_question-label fuel packet offset labels l rest ok at =
    let here = get_or-at packet offset at 0 in
    let inside : leb (length packet) offset ≡ false = ground (arith, length-at packet offset at) in
    let fits : ltb (length packet) (offset + 1 + length l) ≡ false =
      ground (arith, length-at packet offset at, length-append l rest) in
    let tests : (length l == 0 ≡ false) × (leb 0xC0 (length l) ≡ false) = ground arith in
    let read : slice packet (offset + 1) (length l) ≡ l =
      ap (take (length l)) (drop-drop offset 1 packet ∙ ap (drop 1) at)
      ∙ take-length-append l rest in
    rw (here, inside, fits, tests.0, tests.1, read)

read_question-wire :
    (ls : List Bytes) (fuel : ℕ) (packet : Bytes) (offset : ℕ) (labels : List Bytes) (rest : Bytes)
    → length ls < fuel
    → All IsLabel ls
    → drop offset packet ≡ wire_labels ls ++ (0 ∷ rest)
    → read_question fuel packet offset labels
      ≡ some (labels ++ lower_all ls, offset + (length (wire_labels ls) + 1))
read_question-wire ls zero packet offset labels rest f ok at = elim f [ ]
read_question-wire [] (suc fuel) packet offset labels rest f ok at =
    unfold read_question in
    ground (arith, get_or-at packet offset at 0, length-at packet offset at, append-nil labels)
read_question-wire (l ∷ ls) (suc fuel) packet offset labels rest f ok at =
    let at' = at ∙ ap (◌∷◌ (length l)) (append_assoc l (wire_labels ls) (0 ∷ rest)) in
    let end : offset + 1 + length l + (length (wire_labels ls) + 1)
        ≡ offset + (length (wire_labels (l ∷ ls)) + 1) =
      omega (arith, length-append l (wire_labels ls)) in
    read_question-label fuel packet offset labels l (wire_labels ls ++ (0 ∷ rest)) ok.0 at'
    ∙ read_question-wire ls fuel packet (offset + 1 + length l) (labels ++ (to_lower l ∷ [])) rest
        (omega arith) ok.1 (drop-at packet offset at' (length l) ∙ drop-length-append l _)
    ∙ rw (end, append_assoc)

-- Conversely, they let every such query through.
pub TxtQuery-txt_question :
    (packet : Bytes) (labels : List Bytes) (q_end : ℕ)
    → TxtQuery packet labels q_end
    → txt_question packet ≡ some (labels, q_end)
unfolding txt_question
TxtQuery-txt_question packet labels q_end q =
    let tail = 0 ∷ 16 ∷ q.class_high ∷ q.class_low ∷ q.rest in
    let name = wire_labels q.raws in
    let end = 12 + (length name + 1) in
    let size : length packet ≡ 12 + (length name + suc (length tail)) = omega (
      arith,
      ap length q.packet_is,
      q.length-header,
      length-append q.header (name ++ (0 ∷ tail)),
      length-append name (0 ∷ tail),
    ) in
    let start : drop 12 packet ≡ name ++ (0 ∷ tail) =
      ap (drop 12) q.packet_is ∙ drop-prefix 12 q.header (name ++ (0 ∷ tail)) q.length-header in
    let behind : drop end packet ≡ tail =
      drop-drop 12 (length name + 1) packet
      ∙ ap (drop (length name + 1)) start
      ∙ drop-drop (length name) 1 (name ++ (0 ∷ tail))
      ∙ ap (drop 1) (drop-length-append name (0 ∷ tail)) in
    let is_txt : get_u16 packet end ≡ 16 =
      let e : end ≡ end + 0 = omega arith in
      ap (get_u16 packet) e ∙ get_u16-drop end 0 packet ∙ ap (λ (b : Bytes). get_u16 b 0) behind in
    let read =
      read_question-wire q.raws (suc (length packet)) packet 12 [] tail
        (omega (arith, length-wire q.raws)) q.raws_ok start in
    let tests : (ltb (length packet) 12 ≡ false)
        × (leb 0x80 (get_or packet 2 0) ≡ false)
        × (ltb (length packet) (end + 4) ≡ false) =
      (ground arith, ground (arith, q.is_query), ground arith) in
    let q_end_is : end + 4 ≡ q_end = omega (arith, q.ends) in
    rw (tests.0, tests.1, q.one_question, read, tests.2, is_txt, q_end_is, q.labels_are) refl
