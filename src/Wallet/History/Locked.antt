-- ===== src/Wallet/History/Locked.antt =====
-- The lock of BHTWalletPro/src/wallet/wallet.cpp after a history of calls.
use bht_bhte.Prelude.{ℕ, ◌≡◌, refl, ap, not, if◌then◌else◌, true, false, none, some, List, [], ◌∷◌}
use bht_bhte.Wallet.{Openssl}
use bht_bhte.Wallet.Crypter.{MasterKey, decrypt_master}
use bht_bhte.Wallet.Core.{Wallet, wallet, unlock}
use bht_bhte.Wallet.History.{Op, run}
use bht_bhte.Wallet.History.Reached.{run-from_wallet}

decrypt_nothing :
    (passphrase : List ℕ) (m : MasterKey) → m.crypted_key ≡ [] → decrypt_master passphrase m ≡ none
unfolding decrypt_master
decrypt_nothing [] m h = refl
decrypt_nothing (p ∷ ps) m h = rw h refl

unlock_refuses :
    (passphrase : List ℕ) (w : Wallet)
    → w.encrypted ≡ true
    → decrypt_master passphrase w.master ≡ none
    → unlock passphrase w ≡ (false, w)
unfolding unlock
unlock_refuses passphrase w on h =
    rw h (ap (λ b. if not b then (true, record w { locked = false }) else (false, w)) on)

-- No passphrase unlocks an encrypted wallet, the one that it was encrypted with included.
pub run-unlock :
    (env : Openssl) (ops : List Op) (w : Wallet)
    → run env ops wallet ≡ some w
    → w.encrypted ≡ true
    → (passphrase : List ℕ) → unlock passphrase w ≡ (false, w)
run-unlock env ops w h on passphrase =
    unlock_refuses passphrase w on
      (decrypt_nothing passphrase w.master (run-from_wallet env ops w h).no_crypted)
