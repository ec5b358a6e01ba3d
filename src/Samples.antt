-- ===== src/Samples.antt =====
-- A concrete digest, a coinbase and a transaction that spends it, for the tests.
use klomang_network.Prelude.{ℕ, none, List, [], ◌∷◌, true}
use klomang_network.Crypto.{Crypto}
use klomang_network.Transaction.{Transaction, all}
use klomang_network.Utxo.{UtxoSet, zero_bytes}
use klomang_network.Dag.{BlockNode}
use klomang_network.Verkle
use klomang_network.State
use klomang_network.Verkle.{Curve, MemoryStorage}
use klomang_network.Verkle.Steps.{new-IsTree}
use klomang_network.State.{StateManager, HostRun, finished}
use klomang_network.State.Invariant.{IsManager, new-IsManager}

-- A digest that is the first byte; every key and signature is good.
abbrev pub first_byte : List ℕ → ℕ
first_byte [] = 0
first_byte (b ∷ bs) = b

abbrev pub toy : Crypto
toy = record {
  blake3 = first_byte;
  is_verifying_key = λ k. true;
  is_signature = λ s. true;
  verify = λ k m s. true;
}

abbrev pub coin : Transaction
coin = record {
  id = 7;
  inputs = [];
  outputs = record { value = 100; pubkey_hash = 5 } ∷ [];
  execution_payload = [];
  contract_address = none;
  gas_limit = 0;
  max_fee_per_gas = 0;
  chain_id = 1;
  locktime = 0;
}

abbrev pub spend : Transaction
spend = record coin {
  id = 9;
  inputs =
      record {
        prev_tx = 7;
        index = 0;
        signature = zero_bytes 64;
        pubkey = zero_bytes 32;
        sighash_type = all;
      }
      ∷ [];
  outputs = record { value = 60; pubkey_hash = 6 } ∷ record { value = 30; pubkey_hash = 5 } ∷ [];
}

abbrev pub one_coin : UtxoSet
one_coin = record { utxos = ((7, 0), record { value = 100; pubkey_hash = 5 }) ∷ [] }

-- A block of the hash, the parents and the transactions given.
abbrev pub block_of : ℕ → List ℕ → List Transaction → BlockNode
block_of id parents txs = record {
  header = record {
    id = id;
    parents = parents;
    timestamp = 0;
    difficulty = 1;
    nonce = 0;
    verkle_root = 0;
    verkle_proofs = none;
    signature = none;
  };
  children = [];
  selected_parent = none;
  blue_set = [];
  red_set = [];
  blue_score = 0;
  transactions = txs;
}

-- A curve on which a commitment is its first coefficient.
abbrev pub toy_curve : Curve
toy_curve = record {
  commit = first_byte;
  root_hash = λ n. n;
  scalar_of = λ n. n;
  blake3 = first_byte;
}

abbrev pub empty_storage : MemoryStorage
empty_storage = []

-- A contract's run that does nothing.
abbrev pub idle_vm : List ℕ → ℕ → HostRun
idle_vm payload gas_limit = finished 21_000

-- A manager at height zero that counts the one coin.
abbrev pub genesis : StateManager
genesis = record (State.new toy_curve (Verkle.new empty_storage)) { current_total_supply = 100 }

pub genesis-IsManager : IsManager toy_curve genesis
genesis-IsManager =
    let h =
      new-IsManager toy_curve (Verkle.new empty_storage) (new-IsTree toy_curve empty_storage) in
    record { tree = h.tree; count = h.count; fit = h.fit }

abbrev pub spending : BlockNode
spending = block_of 1 [] (spend ∷ [])
