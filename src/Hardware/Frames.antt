-- ===== src/Hardware/Frames.antt =====
-- The packets of a Ledger command in BHTWalletPro/src/hardware/hardware_wallet.cpp.
use bht_bhte.Prelude.{
  ℕ, zero, suc, ◌-◌, ◌≤◌, ◌≡◌, refl, sym, ap, ◌∙◌, Bool, true, false, List, [], ◌∷◌, ◌++◌, min,
  if◌then◌else◌, length, take, drop, replicate, write_over, length-append, length-take, length-drop,
  take-append-drop, take-length-append, arith, Option, none, some, map, concat, leb, append_assoc,
  append-nil,
}
use bht_bhte.Hardware.{answered}
use bht_bhte.Hardware.Exchange.{
  exchange_ledger, send_all, send_report, frames, receive_answer, waiting, collecting, drop_status,
  accept_packet,
}

-- What a device puts together from the packets of a command of n bytes: the 63 bytes, or those
-- that are left, behind the mark of each.
abbrev pub reassemble : ℕ → List (List ℕ) → List ℕ
reassemble n [] = []
reassemble n (packet ∷ packets) = take (min n 63) (drop 1 packet) ++ reassemble (n - 63) packets

chunk_back :
    (xs buffer : List ℕ) → take (min (length xs) 63) (write_over (take 63 xs) buffer) ≡ take 63 xs
chunk_back xs buffer =
    let size : min (length xs) 63 ≡ length (take 63 xs) = omega (arith, length-take 63 xs) in
    ap (λ n. take n (write_over (take 63 xs) buffer)) size
    ∙ take-length-append (take 63 xs) (drop (length (take 63 xs)) buffer)

-- The stale bytes behind a last, shorter chunk do no harm.
pub reassemble-frames :
    (turns : ℕ) (first : Bool) (packet apdu : List ℕ)
    → length apdu ≤ turns
    → reassemble (length apdu) (frames turns first packet apdu) ≡ apdu
unfolding frames
reassemble-frames zero first packet [] h = refl
reassemble-frames zero first packet (b ∷ apdu) h = absurd (omega arith)
reassemble-frames (suc turns) first packet [] h = refl
reassemble-frames (suc turns) first packet (b ∷ apdu) h =
    let xs = b ∷ apdu in
    let packet' = (if first then 0x01 else 0x00) ∷ write_over (take 63 xs) (drop 1 packet) in
    let packets = frames turns false packet' (drop 63 xs) in
    let shorter : length (drop 63 xs) ≤ turns = omega (arith, length-drop 63 xs) in
    ap (λ t. t ++ reassemble (length xs - 63) packets) (chunk_back xs (drop 1 packet))
    ∙ ap (λ n. take 63 xs ++ reassemble n packets) (sym (length-drop 63 xs))
    ∙ ap (◌++◌ (take 63 xs)) (reassemble-frames turns false packet' (drop 63 xs) shorter)
    ∙ take-append-drop 63 xs

-- The reports of a device that answers in chunks: a packet that opens the answer, chunks, and a
-- last one.
abbrev pub answer_reports : List ℕ → List (List ℕ) → List ℕ → List (Option (List ℕ))
answer_reports opening chunks last =
    some (0x01 ∷ opening) ∷ (map (λ chunk. some (0x02 ∷ chunk)) chunks ++ (some (0x03 ∷ last) ∷ []))

long_enough : (xs ys : List ℕ) → 2 ≤ length ys → leb 2 (length (xs ++ ys)) ≡ true
long_enough xs ys h = ground (arith, length-append xs ys)

last_packet :
    (bytes last : List ℕ)
    → 2 ≤ length last
    → accept_packet (collecting bytes) 3 last ≡ (drop_status (bytes ++ last), none)
last_packet bytes last h = rw (long_enough bytes last h) refl

collect-chunks :
    (bytes : List ℕ) (chunks : List (List ℕ)) (last : List ℕ) (later : List (Option (List ℕ)))
    → 2 ≤ length last
    → receive_answer
        (collecting bytes)
        ((map (λ chunk. some (0x02 ∷ chunk)) chunks ++ (some (0x03 ∷ last) ∷ [])) ++ later)
      ≡ (some (drop_status ((bytes ++ concat chunks) ++ last)), later)
unfolding receive_answer
collect-chunks bytes [] last later h =
    rw (receive_answer, last_packet bytes last h)
      (ap (λ r. (some r.0, later)) (last_packet bytes last h)
        ∙ ap (λ t. (some (drop_status (t ++ last)), later)) (sym (append-nil bytes)))
collect-chunks bytes (chunk ∷ chunks) last later h =
    collect-chunks (bytes ++ chunk) chunks last later h
    ∙ ap (λ t. (some (drop_status (t ++ last)), later)) (append_assoc bytes chunk (concat chunks))

-- The answer is what the chunks hold, less the two bytes of the status, which is not looked at.
pub receive_answer-reports :
    (opening : List ℕ) (chunks : List (List ℕ)) (last : List ℕ) (later : List (Option (List ℕ)))
    → 2 ≤ length last
    → receive_answer waiting (answer_reports opening chunks last ++ later)
      ≡ (some (drop_status (concat chunks ++ last)), later)
unfolding receive_answer
receive_answer-reports opening chunks last later h = collect-chunks [] chunks last later h

send_all-accepted :
    (packets sent : List (List ℕ)) (reports : List (Option (List ℕ)))
    → send_all packets
        (record { accepts = replicate (length packets) true; reports = reports; sent = sent })
      ≡ (true, record { accepts = []; reports = reports; sent = sent ++ packets })
unfolding send_all send_report
send_all-accepted [] sent reports =
    ap (λ t. (true, record { accepts = []; reports = reports; sent = t })) (sym (append-nil sent))
send_all-accepted (packet ∷ packets) sent reports =
    send_all-accepted packets (sent ++ (packet ∷ [])) reports
    ∙ ap (λ t. (true, record { accepts = []; reports = reports; sent = t }))
        (append_assoc sent (packet ∷ []) packets)

-- With a device that takes every packet and answers in an opening packet, chunks and a last packet of
-- at least two bytes, exchangeAPDU sends packets that give the command back and answers the chunks
-- less the two last bytes; the reports behind the answer are left.
pub exchange_ledger-frames :
    (apdu opening : List ℕ) (chunks : List (List ℕ)) (last : List ℕ)
    (later : List (Option (List ℕ)))
    → 2 ≤ length last
    → let packets = frames (length apdu) true (replicate 65 0) apdu in
      (reassemble (length apdu) packets ≡ apdu)
      × (exchange_ledger apdu (record {
        accepts = replicate (length packets) true;
        reports = answer_reports opening chunks last ++ later;
        sent = [];
      })
          ≡ (
            answered (take (length (concat chunks ++ last) - 2) (concat chunks ++ last)),
            record { accepts = []; reports = later; sent = packets },
          ))
unfolding exchange_ledger
exchange_ledger-frames apdu opening chunks last later h =
    let packets = frames (length apdu) true (replicate 65 0) apdu in
    let reports = answer_reports opening chunks last ++ later in
    (
      reassemble-frames (length apdu) true (replicate 65 0) apdu (omega arith),
      rw
          (
            exchange_ledger,
            send_all-accepted packets [] reports,
            receive_answer-reports opening chunks last later h,
          )
          refl,
    )
