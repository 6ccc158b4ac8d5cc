-- ===== src/Hardware/Examples.antt =====
-- Commands, answers and paths at concrete bytes.
use bht_bhte.Prelude.{ℕ, ◌≡◌, refl, true, false, List, [], ◌∷◌, ◌++◌, length, replicate, arith}
use bht_bhte.Hardware.{is_success, answered, overrun, trezor, Hid}
use bht_bhte.Hardware.Exchange.{frames, exchange_ledger, exchange_apdu}
use bht_bhte.Hardware.Frames.{reassemble, answer_reports, exchange_ledger-frames}
use bht_bhte.Hardware.Path.{parse_path, path_text}

abbrev apdu : List ℕ
apdu = replicate 100 7

exchange_ledger-frames_example :
    let packets = frames (length apdu) true (replicate 65 0) apdu in
    (reassemble (length apdu) packets ≡ apdu)
    × (exchange_ledger apdu (record {
      accepts = replicate (length packets) true;
      reports = answer_reports [] ((1 ∷ 2 ∷ []) ∷ []) (3 ∷ 0x90 ∷ 0 ∷ []) ++ [];
      sent = [];
    })
        ≡ (answered (1 ∷ 2 ∷ 3 ∷ []), record { accepts = []; reports = []; sent = packets }))
exchange_ledger-frames_example =
    exchange_ledger-frames apdu [] ((1 ∷ 2 ∷ []) ∷ []) (3 ∷ 0x90 ∷ 0 ∷ []) [] (omega arith)

-- The status 0x9000, which stands for success, is none.
test_status : is_success (record { status_hi = 0x90; status_lo = 0; payload = [] }) ≡ false
unfolding is_success
test_status = refl

-- The greeting of a Trezor does not fit its buffer.
test_greeting : (h : Hid) → (exchange_apdu trezor 0 3 0 0 (replicate 64 0) h).0 ≡ overrun
unfolding exchange_apdu
test_greeting h = refl

-- 44'/0'/0'/0/5
test_path :
    parse_path (path_text (0x8000002C ∷ 0x80000000 ∷ 0x80000000 ∷ 0 ∷ 5 ∷ []))
    ≡ 0x8000002C ∷ 0x80000000 ∷ 0x80000000 ∷ 0 ∷ 5 ∷ []
unfolding parse_path path_text
test_path = refl
