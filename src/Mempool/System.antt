-- ===== src/Mempool/System.antt =====
-- The steps of src/new_index/mempool.rs under concurrency: the main loop's `update` takes the lock
-- three times, and a broadcast may add a transaction before, between and after.
use splora.Common.{ℕ, ◌≡◌, Option, some, List}
use splora.Common.Maps.{nat_key}
use splora.ChainQuery.{Txid}
use splora.Transactions.{Transaction}
use splora.Mempool.{Mempool, new, unique_txids}
use splora.Mempool.Index.{Deps, MempoolError, add_by_txid, remove, difference, finish_update}

-- Where the main loop stands in `update`: the ids it listed wait for the daemon's, or the
-- transactions to add are being fetched.
pub data Phase : Type 0 where
  idle : Phase
  listed : List Txid → Phase
  fetching : Phase

pub record System : Type 0 where
  pub mempool : Mempool
  pub phase : Phase

-- A critical section of the main loop, an error of the daemon, or a broadcast by another thread.
-- Time passes and blocks are indexed between the steps, so each has values `d` of its own.
pub data Step : System → System → Type 0 where
  list :
      (m : Mempool)
      → Step
          (record { mempool = m; phase = idle })
          (record { mempool = m; phase = listed (unique_txids m) })
  drop :
      (d : Deps) (m m' : Mempool) (old all : List Txid)
      → remove d m (difference old all) ≡ some m'
      → Step
          (record { mempool = m; phase = listed old })
          (record { mempool = m'; phase = fetching })
  finish :
      (d : Deps) (now : ℕ) (m m' : Mempool) (txs : List Transaction)
      → finish_update d now m txs ≡ some m'
      → Step (record { mempool = m; phase = fetching }) (record { mempool = m'; phase = idle })
  give_up :
      (m : Mempool) (p : Phase)
      → Step (record { mempool = m; phase = p }) (record { mempool = m; phase = idle })
  broadcast :
      (d : Deps) (m m' : Mempool) (p : Phase) (txid : Txid) (tx : Option Transaction)
      (e : Option MempoolError)
      → add_by_txid d m txid tx ≡ some (m', e)
      → Step (record { mempool = m; phase = p }) (record { mempool = m'; phase = p })

pub data Reach (now : ℕ) : System → Type 0 where
  start : Reach now (record { mempool = new now; phase = idle })
  later : {s t : System} → Reach now s → Step s t → Reach now t
