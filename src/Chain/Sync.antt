-- ===== src/Chain/Sync.antt =====
-- The synchronisation of blocks (crates/rabbitcore/src/blockchain/sync.rs): its data, its start and end, its
-- peers and the queue of blocks. The processing of a block, which takes the lock of the sync state while it
-- holds it, is not modelled.
use rabbit_chain_node.Prelude.{
  ℕ, ◌%◌, ◌^◌, Bool, true, false, List, [], ◌∷◌, ◌++◌, ltb, leb, if◌then◌else◌, length,
}
use rabbit_chain_node.Compute.Types.{Text}
use rabbit_chain_node.Chain.{Block, Blockchain}

pub data SyncMode : Type 0 where
  full fast light : SyncMode

pub data SyncState : Type 0 where
  idle : SyncState
  syncing : ℕ → ℕ → ℕ → SyncState
  complete : SyncState

pub record SyncConfig : Type 0 where
  pub mode : SyncMode
  pub min_peers : ℕ
  pub batch_size : ℕ
  pub max_pending : ℕ

pub record SyncStats : Type 0 where
  pub is_syncing : Bool
  pub blocks_downloaded : ℕ
  pub blocks_processed : ℕ
  pub headers_downloaded : ℕ
  pub start_time : ℕ
  pub last_activity : ℕ

pub record SyncManager (V : Type 0) : Type 0 where
  pub config : SyncConfig
  pub blockchain : Blockchain V
  pub state : SyncState
  pub stats : SyncStats
  pub pending_blocks : List Block
  pub peers : List Text

module _ {V : Type 0} where
  unfoldable pub start_sync : ℕ → ℕ → SyncManager V → SyncManager V
  start_sync target_block now m =
      let current = m.blockchain.best_block.header.number % 2 ^ 64 in
      if leb target_block current then m else record m {
        state = syncing current current target_block;
        stats = record m.stats { is_syncing = true; start_time = now };
      }

  unfoldable pub stop_sync : SyncManager V → SyncManager V
  stop_sync m = record m { state = idle; stats = record m.stats { is_syncing = false } }

  abbrev pub add_peer : Text → SyncManager V → SyncManager V
  add_peer peer m = record m { peers = m.peers ++ peer ∷ [] }

  unfoldable pub queue_block : Block → SyncManager V → SyncManager V
  queue_block block m =
      if ltb (length m.pending_blocks) m.config.max_pending
      then record m { pending_blocks = m.pending_blocks ++ block ∷ [] }
      else m
