-- ===== src/Hardware.antt =====
-- BHTWalletPro/src/hardware/hardware_wallet.cpp and .h: the class CHardwareWallet in its Windows
-- build, over the reports of a HID device, and the derivation paths. The device is two lists: the
-- answers of the coming writes, and the coming reports, `none` one that fails.
pub mod Path
pub mod Exchange
pub mod Frames
pub mod Device
mod Examples
use bht_bhte.Prelude.{
  ℕ, ◌+◌, ◌*◌, ◌/◌, ◌%◌, ◌^◌, Bool, true, false, ◌&&◌, ◌||◌, Option, List, [], ◌∷◌, ◌++◌, ltb, ◌==◌,
  if◌then◌else◌,
}

pub data WalletType : Type 0 where
  unknown ledger trezor bitbox02 keystone coldcard jade : WalletType

pub data HardwareError : Type 0 where
  no_error not_connected device_not_found timed_out invalid_data denied cancelled other :
      HardwareError

pub record ApduCommand : Type 0 where
  pub cla : ℕ
  pub ins : ℕ
  pub p1 : ℕ
  pub p2 : ℕ
  pub data_length : ℕ
  pub payload : List ℕ

unfoldable pub serialize : ApduCommand → List ℕ
serialize c = c.cla ∷ c.ins ∷ c.p1 ∷ c.p2 ∷ c.data_length ∷ c.payload

pub record ApduResponse : Type 0 where
  pub status_hi : ℕ
  pub status_lo : ℕ
  pub payload : List ℕ

-- Success is the status 0x906F.
unfoldable pub is_success : ApduResponse → Bool
is_success r = (r.status_hi == 0x90) && (r.status_lo == 0x6F)

unfoldable pub is_timeout : ApduResponse → Bool
is_timeout r = (r.status_hi == 0x6D) || (r.status_lo == 0x6D)

unfoldable pub is_cancelled : ApduResponse → Bool
is_cancelled r = (r.status_hi == 0x6E) || (r.status_lo == 0x6E)

unfoldable pub get_status : ApduResponse → ℕ
get_status r = r.status_hi * 2 ^ 8 + r.status_lo

pub record Hid : Type 0 where
  pub accepts : List Bool
  pub reports : List (Option (List ℕ))
  pub sent : List (List ℕ)

-- What a call of exchangeAPDU does: `overrun` is a read or a write outside of a buffer.
pub data Reply : Type 0 where
  overrun : Reply
  failed : Reply
  answered : List ℕ → Reply
