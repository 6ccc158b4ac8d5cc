-- ===== src/Layer2.antt =====
-- BHTWalletPro/src/layer2/layer2_client.cpp: the class Layer2Client, its requests to a node and its
-- reading of the answers. The exchange over the network is an argument.
pub mod Json
pub mod Words
pub mod Client
pub mod Answers
pub mod Fill
pub mod Accounts
pub mod Transactions
pub mod History
pub mod Blocks
pub mod Bridge
mod Examples
