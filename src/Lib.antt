-- ===== src/Lib.antt =====
-- A model of the BHC node's core and of the wallet beside it: the withdrawal validators, ML-DSA in
-- both of the node's implementations, the hybrid signature check of scripts, the proof of work and
-- its targets, the parameters of the networks, and of BHTWalletPro its signer, its wallet, its
-- hardware exchange, its client of the second layer and its network table.
--
-- The parts and how they interact. A request to withdraw comes in as bytes (ParseWithdrawalRequest),
-- is checked for a signature and for an anchored state root, and then stored; it can be challenged,
-- approved after the challenge period, executed and expired. Merkle proofs tie a leaf to a state
-- root, and the escape hatch and the forced exit are the ways out without the second layer.
-- Signatures are ML-DSA: mldsa_fips204.h implements key generation, signing and verification down to
-- the bits, and CMLDSA stands over liboqs or over a fallback of its own. Scripts check signatures
-- through EvalCheckSigHybrid, and blocks are checked against targets that pow.cpp computes and with
-- the hash of progpow.cpp. The wallet keeps the keys, locks them with a phrase, spends its coins by
-- signing their identifiers, and writes its keys to a backup file that it reads again; its signer has
-- an ECDSA and an ML-DSA half; a hardware wallet is spoken to in reports of 64 bytes, and a
-- node of the second layer in JSON.
--
-- Which file models which part (paths from the root of the repository):
--   * Withdrawal, Withdrawal/Validator: BHC/src/script/withdrawal_script.h and .cpp,
--     CWithdrawalValidator. Its state is the record `Validator`, and one function models each method;
--     a method that answers a bool gives `none` for false. Validator/Runs models histories of calls.
--   * Withdrawal/Parse: ParseWithdrawalRequest. The offset is the rest of the bytes, and a read past
--     the end an outcome of its own, `out_of_bounds`.
--   * Withdrawal/Merkle: verifyMerkleProof. Merkle/Tree has the trees that it is measured against.
--   * Withdrawal/Escape, Withdrawal/ForcedExit: CEscapeHatchVerifier, VerifyEscapeHatch and
--     CForcedExitVerifier.
--   * Fips204: BHC/src/crypto/mldsa_fips204.h, in the order of the file: Keccak, Shake, Field and
--     Param (constants, reduction, parameter sets), Ntt, Rounding, Sampling, BitIo and Pack, Hints,
--     Keys, Sign, Verify, Api. Ntt/Product has the product of polynomials that the transforms are
--     measured against, and Hints/Packed the bytes of a vector of rows of flags.
--   * Mldsa: BHC/src/crypto/mldsa.h and mldsa.cpp, CMLDSA. Mldsa/Oqs is the build over liboqs, and
--     Mldsa/Fallback the one without it.
--   * HybridSig: BHC/src/script/hybrid_sig.h and .cpp.
--   * Pow: BHC/src/pow.h and .cpp.
--   * ProgPow: BHC/src/crypto/progpow.h and .cpp: ProgPow/Sha256 the class SHA256, ProgPow/Loop the
--     class CProgPoW, ProgPow/Target the comparison with a target.
--   * ChainParams: BHC/src/chainparams.h and .cpp.
--   * TypeBridge: BHC/src/type_bridge.h, less ToHexReversed and the conversions of double.
--   * Signer: BHTWalletPro/src/crypto/mldsa_signer.h and .cpp. Signer/Hybrid is CMLDSAHybridSigner.
--   * Wallet: BHTWalletPro/src/wallet: Wallet/Keys and Wallet/Tx types.h, Wallet/Crypter crypter.h,
--     and of wallet.h and wallet.cpp Wallet/Core the class CWallet with its keys and its lock,
--     Core/Phrase the recovery phrase, Wallet/Signing transactions and balances, Wallet/Backup the
--     backup file. The state is a record, and a method takes it and gives the one after it with its
--     answer. Wallet/History models histories of calls.
--   * Hardware: BHTWalletPro/src/hardware/hardware_wallet.h and .cpp, the Windows build:
--     Hardware/Path the derivation paths, Hardware/Exchange and Hardware/Frames the exchange of a
--     command, Hardware/Device the operations over it.
--   * Layer2: BHTWalletPro/src/layer2/layer2_client.h and .cpp: Layer2/Json the reading of answers,
--     Layer2/Client the requests of Layer2Client that give a number or move money, Layer2/Words their
--     words; Layer2/Accounts, Transactions, History and Blocks the requests that fill in an object,
--     step by step as Layer2/Fill says, and Layer2/Bridge the class BHTEBridge over two clients.
--   * NetworkConfig: BHTWalletPro/src/config/networkconfig.h and .cpp.
--   * Prelude: shared names, Boolean tests, lists, texts, integers, bits and digits.
-- Each Examples module holds tests and inputs on which the theorems are applied.
--
-- Numbers. Bytes and uint64_t are natural numbers, with the wrap written where the code can reach it;
-- int32_t and int64_t are integers, since the ranges that the code keeps are far inside them. The path
-- of a Merkle proof is read modulo 2^32; the shift of it by 32 or more, which C++ leaves undefined for
-- proofs of more than 32 siblings, gives the bit 0 here. A target is multiplied by the whole time span
-- and wraps at 2^256: Bitcoin Core takes a factor modulo 2^32 and refuses to divide by 0, which no
-- table of the networks reaches. Amounts in the wallet do not
-- overflow. Texts are lists of bytes.
--
-- Bounds and fuel. The loops of BitWriter, BitReader, bitlen and modPow take as many rounds as the
-- number of bits they treat, and each round uses up at least one. The rejection samplers read an
-- endless stream and have no bound in the code: they take the number of draws, and give `none` where
-- it is too small; no theorem speaks of them. The loop of signCore has the 1000 rounds of the source.
-- The loop of shake256_fallback takes a count of rounds and gives `none` when it runs out; an entry
-- below names a count that is enough, and another the lengths for which none is. The packets of a
-- hardware command take one round for each byte that is left. The decimal text of a number of 64 bits
-- has at most 20 digits. The fields of an answer, and the transactions of a history, take as many
-- rounds as the text has characters.
--
-- Taken from outside. SHA-256 of the node, GetTime(), std::random_device, CPubKey, arith_uint256 with
-- its compact form, ImportPublicKey and VerifyDetached are arguments, with what a theorem needs of
-- them among its hypotheses; MLDSA_Verify and ProgPoWHash are interfaces of their callers. OpenSSL
-- and liboqs are records of functions. The generators mt19937 and mt19937_64 are functions of a seed
-- and an index. What a call draws at random, the time, and the answers of a device are arguments, and
-- so is the table BIP39_WORDLIST, and the functions that connect to a node and send it a request. The numbers that a declaration
-- leaves unset are arguments.
--
-- Not modelled. Of progpow.cpp initDag, of the wallet GetAddress and the conversion of amounts to
-- text, of the hardware wallet the manager of devices and the builds for other systems, of the client
-- of the second layer its sockets and the setters of one field; the user interface
-- (BHTWalletPro/src/qt), which is Qt code; tests, tools and the parts in other languages.
pub mod Prelude
pub mod Fips204
pub mod Mldsa
pub mod Withdrawal
pub mod HybridSig
pub mod Pow
pub mod ProgPow
pub mod ChainParams
pub mod TypeBridge
pub mod Signer
pub mod Wallet
pub mod Hardware
pub mod Layer2
pub mod NetworkConfig
