-- ===== src/Hardware/Device.antt =====
-- The operations of CHardwareWallet in BHTWalletPro/src/hardware/hardware_wallet.cpp. An operation
-- answers `none` where exchangeAPDU, or what reads its answer, leaves a buffer. The calls of
-- Windows that open a device are one answer.
use bht_bhte.Prelude.{
  codes, ℕ, ◌+◌, ◌-◌, ◌%◌, Bool, true, false, not, ◌&&◌, ◌||◌, Option, none, some, List, [], ◌∷◌,
  ◌++◌, flat_map, ltb, leb, ◌==◌, if◌then◌else◌, length, take, drop, replicate, get_or,
}
use bht_bhte.Fips204.Sampling.{◌>>=◌}
use bht_bhte.Wallet.Keys.{be_bytes}
use bht_bhte.Hardware.{
  WalletType, unknown, ledger, trezor, bitbox02, keystone, coldcard, jade, Hid, Reply, overrun,
  failed, answered,
}
use bht_bhte.Hardware.Exchange.{exchange_apdu}
use bht_bhte.Hardware.Path.{decimal}

pub record Device : Type 0 where
  pub type : WalletType
  pub connected : Bool
  pub initialized : Bool
  pub has_screen : Bool
  pub has_keypad : Bool
  pub firmware_version : List ℕ
  pub serial_number : List ℕ
  pub label : List ℕ
  pub hid : Hid

pub record WalletInfo : Type 0 where
  pub type : WalletType
  pub has_screen : Bool
  pub has_keypad : Bool

-- The identifiers of EnumerateDevices; a Ledger product that is not listed leaves the type without
-- a value, which is `none`.
unfoldable pub device_info : ℕ → ℕ → Option WalletInfo
device_info vendor product =
    if vendor == 0x2C97
    then (if ltb 0 product && leb product 6
        then some (record { type = ledger; has_screen = true; has_keypad = true })
        else none)
    else if vendor == 0x1209
    then some (record { type = trezor; has_screen = true; has_keypad = true })
    else if vendor == 0x03EB
    then some (record { type = bitbox02; has_screen = true; has_keypad = true })
    else if vendor == 0x04C4
    then some (record { type = keystone; has_screen = true; has_keypad = true })
    else if vendor == 0x04B4
    then some (record { type = coldcard; has_screen = true; has_keypad = true })
    else if vendor == 0x0483
    then some (record { type = jade; has_screen = true; has_keypad = true })
    else some (record { type = unknown; has_screen = false; has_keypad = false })

unfoldable pub disconnect : Device → Device
disconnect d = record d { connected = false; initialized = false; type = unknown }

-- An exchange of the device's own type: `none` outside a buffer, the response otherwise.
abbrev pub of_reply : Reply → Option (Option (List ℕ))
of_reply overrun = none
of_reply failed = some none
of_reply (answered response) = some (some response)

unfoldable pub talk : ℕ → ℕ → List ℕ → Device → Option (Option (List ℕ) × Device)
unfolding exchange_apdu
talk cla ins payload d =
    let (reply, hid) = exchange_apdu d.type cla ins 0 0 payload d.hid in
    of_reply reply >>= λ response. some (response, record d { hid = hid })

abbrev succeed : Option (List ℕ) × Device → Bool × Device
succeed (none, d) = (false, d)
succeed (some response, d) = (true, record d { initialized = true })

unfoldable pub initialize : Device → Option (Bool × Device)
unfolding talk
initialize d = if not d.connected then some (false, d) else elim d.type [
  | ledger ↦ talk 0xE0 0x06 [] d >>= λ r. some (succeed r)
  | trezor ↦ talk 0x00 0x03 (0x00 ∷ 0x03 ∷ replicate 62 0) d >>= λ r. some (succeed r)
  | _ ↦ some (true, record d { initialized = true })
]

-- Three numbers and the dots between them.
abbrev pub version_text : List ℕ → List ℕ
version_text r =
    decimal (get_or r 0 0) ++ (46 ∷ decimal (get_or r 1 0)) ++ (46 ∷ decimal (get_or r 2 0))

abbrev read_version : Option (List ℕ) × Device → Option (List ℕ) × Device
read_version (none, d) = (none, d)
read_version (some r, d) = (if leb 4 (length r) then some (version_text r) else none, d)

abbrev unknown_text : List ℕ
unknown_text = codes "Unknown"

abbrev keep_version : Option (List ℕ) × Device → Device
keep_version (none, d) = d
keep_version (some version, d) = record d { firmware_version = version }

unfoldable pub get_device_info : Device → Option Device
unfolding talk
get_device_info d = elim d.type [
  | ledger ↦ talk 0xE0 0x06 [] d >>= λ r. some (keep_version (read_version r))
  | trezor ↦ some (record d { firmware_version = unknown_text })
  | _ ↦ some d
]

unfoldable pub connect : Bool → WalletInfo → Device → Option (Bool × Device)
unfolding disconnect initialize get_device_info
connect opened info d =
    let d₁ = if d.connected then disconnect d else d in
    let d₂ = record d₁ {
      type = info.type;
      has_screen = info.has_screen;
      has_keypad = info.has_keypad;
      connected = true;
    } in
    if not opened
    then some (false, d₁)
    else initialize d₂ >>= λ r.
        if not r.0
        then some (false, disconnect r.1)
        else get_device_info r.1 >>= λ d₃. some (true, d₃)

abbrev or_stored : Option (List ℕ) × Device → Option (List ℕ) × Device
or_stored (some version, d) = (some version, d)
or_stored (none, d) = (elim d.firmware_version [ [] ↦ none | c ∷ cs ↦ some (c ∷ cs) ], d)

unfoldable pub get_firmware_version : Device → Option (Option (List ℕ) × Device)
unfolding talk
get_firmware_version d = if not d.connected then some (none, d) else elim d.type [
  | ledger ↦ talk 0xE0 0x06 [] d >>= λ r. some (or_stored (read_version r))
  | _ ↦ some (or_stored (none, d))
]

unfoldable pub path_bytes : List ℕ → List ℕ
path_bytes path = flat_map be_bytes path

abbrev pub counted_path : List ℕ → List ℕ
unfolding path_bytes
counted_path path = length path % 256 ∷ path_bytes path

-- The responses: bytes 1 to 33 of a Ledger's, which asks for 33 and reads 34; the first 33 of a
-- Trezor's.
abbrev pub ledger_key : Option (List ℕ) × Device → Option (Option (List ℕ) × Device)
ledger_key (none, d) = some (none, d)
ledger_key (some r, d) =
    if length r == 33
    then none
    else some ((if leb 33 (length r) then some (take 33 (drop 1 r)) else none), d)

abbrev pub at_least : ℕ → ℕ → Option (List ℕ) × Device → Option (List ℕ) × Device
at_least size cut (none, d) = (none, d)
at_least size cut (some r, d) =
    ((if leb size (length r) then some (take (length r - cut) r) else none), d)

abbrev trezor_key : Option (List ℕ) × Device → Option (List ℕ) × Device
trezor_key (none, d) = (none, d)
trezor_key (some r, d) = ((if leb 33 (length r) then some (take 33 r) else none), d)

unfoldable pub get_public_key : List ℕ → Device → Option (Option (List ℕ) × Device)
unfolding talk path_bytes
get_public_key path d = if not d.connected then some (none, d) else elim d.type [
  | ledger ↦ talk 0xE0 0x02 (path_bytes path) d >>= ledger_key
  | trezor ↦ talk 0x00 0x03 (counted_path path ++ (0x00 ∷ [])) d >>= λ r. some (trezor_key r)
  | _ ↦ some (none, d)
]

-- A Ledger's signature loses two more bytes than its status.
unfoldable pub sign_transaction : List ℕ → List ℕ → Device → Option (Option (List ℕ) × Device)
unfolding talk path_bytes
sign_transaction path tx d = if not d.connected then some (none, d) else elim d.type [
  | ledger ↦ talk 0xE0 0x04 (path_bytes path ++ tx) d >>= λ r. some (at_least 64 2 r)
  | trezor ↦ talk 0x00 0x08 (counted_path path ++ (be_bytes (length tx) ++ tx)) d >>= λ r.
      some (at_least 64 0 r)
  | _ ↦ some (none, d)
]

unfoldable pub sign_message : List ℕ → List ℕ → Device → Option (Option (List ℕ) × Device)
unfolding talk path_bytes
sign_message path message d = if not d.connected then some (none, d) else elim d.type [
  | ledger ↦
      talk 0xE0 0x04 (0x31 ∷ (length message + 1) % 256 ∷ (path_bytes path ++ message)) d >>= λ r.
      some (at_least 64 2 r)
  | trezor ↦ talk 0x00 0x16 (counted_path path ++ message) d >>= λ r. some (at_least 64 0 r)
  | _ ↦ some (none, d)
]

abbrev shown : Option (List ℕ) × Device → Bool × Device
shown (none, d) = (false, d)
shown (some r, d) = (true, d)

unfoldable pub display_address : List ℕ → Device → Option (Bool × Device)
unfolding talk path_bytes
display_address path d =
    if not d.connected || not d.has_screen then some (false, d) else elim d.type [
      | ledger ↦ talk 0xE0 0x0E (path_bytes path) d >>= λ r. some (shown r)
      | trezor ↦ talk 0x00 0x17 (counted_path path ++ (0x01 ∷ [])) d >>= λ r. some (shown r)
      | _ ↦ some (false, d)
    ]

-- WipeDevice and RestoreDevice do nothing more than this test.
unfoldable pub wipe_device : Device → Bool
wipe_device d = d.connected

unfoldable pub setup_device : List ℕ → Device → Bool × Device
setup_device label d = if not d.connected then (false, d) else (true, record d { label = label })
