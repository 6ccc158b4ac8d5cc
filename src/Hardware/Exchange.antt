-- ===== src/Hardware/Exchange.antt =====
-- exchangeAPDU of BHTWalletPro/src/hardware/hardware_wallet.cpp.
use bht_bhte.Prelude.{
  ℕ, zero, suc, ◌-◌, ◌/◌, ◌%◌, ◌^◌, Bool, true, false, ◌||◌, Option, none, some, List, [], ◌∷◌,
  ◌++◌, ltb, leb, ◌==◌, if◌then◌else◌, length, take, drop, replicate, write_over,
}
use bht_bhte.Hardware.{WalletType, ledger, trezor, Hid, Reply, overrun, failed, answered}

-- sendHIDReport; a list that has run out refuses.
unfoldable pub send_report : List ℕ → Hid → Bool × Hid
send_report packet h = elim h.accepts [
  | [] ↦ (false, h)
  | ok ∷ more ↦ (ok, record h { accepts = more; sent = h.sent ++ (packet ∷ []) })
]

-- receiveHIDReport; a list that has run out fails.
unfoldable pub receive_report : Hid → Option (List ℕ) × Hid
receive_report h = elim h.reports [ [] ↦ (none, h) | r ∷ more ↦ (r, record h { reports = more }) ]

-- The packets of an APDU: 65 bytes that are written over again for each chunk of 63, with a mark
-- in front. One turn takes at least a byte, so the length is turns enough.
unfoldable pub frames : ℕ → Bool → List ℕ → List ℕ → List (List ℕ)
frames zero first packet apdu = []
frames (suc turns) first packet [] = []
frames (suc turns) first packet (b ∷ apdu) =
    let packet' =
      (if first then 0x01 else 0x00) ∷ write_over (take 63 (b ∷ apdu)) (drop 1 packet) in
    packet' ∷ frames turns false packet' (drop 63 (b ∷ apdu))

unfoldable pub send_all : List (List ℕ) → Hid → Bool × Hid
unfolding send_report
send_all [] h = (true, h)
send_all (packet ∷ packets) h =
    let (ok, h') = send_report packet h in
    let rest = send_all packets h' in if ok then rest else (false, h')

-- The two nested loops over the reports: before the first packet of an answer, or within one.
pub data Phase : Type 0 where
  waiting : Phase
  collecting : List ℕ → Phase

abbrev pub drop_status : List ℕ → List ℕ
drop_status bytes = take (length bytes - 2) bytes

-- What a packet with the mark `t` leads to: an answer, or the next phase.
abbrev pub accept_packet : Phase → ℕ → List ℕ → List ℕ × Option Phase
accept_packet waiting t payload =
    if t == 0x01
    then ([], some (collecting []))
    else if t == 0x03
    then ((if leb 2 (length payload) then drop_status payload else payload), none)
    else ([], some waiting)
accept_packet (collecting bytes) t payload =
    let bytes' = if (t == 0x02) || (t == 0x03) then bytes ++ payload else bytes in
    if t == 0x03
    then (if leb 2 (length bytes') then (drop_status bytes', none) else ([], some waiting))
    else ([], some (collecting bytes'))

unfoldable pub receive_answer :
    Phase → List (Option (List ℕ)) → Option (List ℕ) × List (Option (List ℕ))
receive_answer phase [] = (none, [])
receive_answer phase (none ∷ reports) = (none, reports)
receive_answer phase (some [] ∷ reports) = receive_answer phase reports
receive_answer phase (some (t ∷ payload) ∷ reports) = elim (accept_packet phase t payload).1 [
  | none ↦ (some (accept_packet phase t payload).0, reports)
  | some phase' ↦ receive_answer phase' reports
]

abbrev reply_of : Option (List ℕ) → Reply
reply_of none = failed
reply_of (some response) = answered response

unfoldable pub ledger_apdu : ℕ → ℕ → ℕ → ℕ → List ℕ → List ℕ
ledger_apdu cla ins p1 p2 payload = cla ∷ ins ∷ p1 ∷ p2 ∷ length payload % 256 ∷ payload

unfoldable pub exchange_ledger : List ℕ → Hid → Reply × Hid
unfolding frames send_all receive_answer
exchange_ledger apdu h =
    let (ok, h') = send_all (frames (length apdu) true (replicate 65 0) apdu) h in
    if ok
    then (let (response, reports) = receive_answer waiting h'.reports in
        (reply_of response, record h' { reports = reports }))
    else (failed, h')

-- A report of two bytes makes a range that ends before it starts.
abbrev trezor_answer : Option (List ℕ) → Reply
trezor_answer none = failed
trezor_answer (some reply) =
    if leb 3 (length reply)
    then answered (take (length reply - 3) (drop 1 reply))
    else if length reply == 2
    then overrun
    else failed

-- The command is copied behind the first five of 64 bytes, whatever its length.
unfoldable pub exchange_trezor : List ℕ → Hid → Reply × Hid
unfolding send_report receive_report
exchange_trezor apdu h =
    let n = length apdu in
    let header =
      0x23
      ∷ n % 256
      ∷ n / 2 ^ 8 % 256
      ∷ n / 2 ^ 16 % 256
      ∷ n / 2 ^ 24 % 256
      ∷ write_over apdu (replicate 59 0) in
    if ltb 59 n
    then (overrun, h)
    else (let (ok, h') = send_report header h in
        if ok
        then (let (reply, h'') = receive_report h' in (trezor_answer reply, h''))
        else (failed, h'))

unfoldable pub exchange_apdu : WalletType → ℕ → ℕ → ℕ → ℕ → List ℕ → Hid → Reply × Hid
unfolding exchange_ledger ledger_apdu exchange_trezor
exchange_apdu ledger cla ins p1 p2 payload h = exchange_ledger (ledger_apdu cla ins p1 p2 payload) h
exchange_apdu trezor cla ins p1 p2 payload h = exchange_trezor (cla ∷ ins ∷ p1 ∷ p2 ∷ payload) h
exchange_apdu _ cla ins p1 p2 payload h = (failed, h)
