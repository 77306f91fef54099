-- ===== src/Tests/Unconfirmed.antt =====
-- A mempool with a payment, its child and an orphan.
use splora.Common.{
  ℕ, ◌+◌, ◌≡◌, refl, true, false, not, ◌&&◌, Option, none, some, List, [], ◌∷◌, ◌++◌, ◌==◌, arith,
  length, ℕ_discrete, if◌then◌else◌,
}
use splora.Common.Maps
use splora.Common.Maps.{nat_key, contains_key}
use splora.ChainQuery.{Txid}
use splora.ChainQuery.Utxos.{
  OutPoint, out_point, out_point_key, OutPoint-discrete, spending, funding,
}
use splora.Transactions.{Transaction, extract_tx_prevouts}
use splora.Fees
use splora.Mempool.{Mempool, new, unique_txids, txids, history, history_group}
use splora.Common.Lists.{mem?}
use splora.Mempool.Index.{Deps, add, add_by_txid, remove, difference, finish_update}
use splora.Mempool.Log.{Log, Refines, without, logged_txs}
use splora.Mempool.Effects.{or_kept, last_tx, new_ids, last_spend, unless_of}
use splora.Mempool.Adding.{added, add-Refines}
use splora.Mempool.Removing.{remove-Refines}
use splora.Mempool.System.{System, listed, Reach, start, later, list, drop, finish}
use splora.Mempool.Running.{start-Refines, add-kept, Reach-never_panics}
use splora.Common.Sort.{Ascends}
use splora.Mempool.Paging.{gather, gather_all}
use splora.Mempool.Orphans.{add_by_txid-missing_parents}

-- Output 0 of transaction 7 is confirmed. Scripts are hashed to their first byte.
abbrev deps : Deps
deps = record {
  confirmed = λ o. elim o [
    | out_point t v ↦
        if t == 7 then some (record { value = 900; script_pubkey = 118 ∷ [] }) else none
  ];
  script_hash = λ s. elim s [ [] ↦ 0 | b ∷ r ↦ b ];
  illegal = λ b. b == 106;
  fee_rate = λ fee size. 1;
  config = record {
    mempool_recent_txs_size = 10;
    mempool_backlog_stats_ttl = 10;
    index_unspendables = false;
  };
}

abbrev payment : Transaction
payment = record {
  txid = 20;
  weight = 400;
  input = record { previous_output = out_point 7 0 } ∷ [];
  output =
      record { value = 500; script_pubkey = 118 ∷ [] }
      ∷ record { value = 0; script_pubkey = 106 ∷ [] }
      ∷ record { value = 300; script_pubkey = 169 ∷ [] }
      ∷ [];
}

abbrev child : Transaction
child = record {
  txid = 21;
  weight = 440;
  input = record { previous_output = out_point 20 2 } ∷ [];
  output = record { value = 250; script_pubkey = 118 ∷ [] } ∷ [];
}

abbrev orphan : Transaction
orphan = record {
  txid = 30;
  weight = 440;
  input = record { previous_output = out_point 29 0 } ∷ [];
  output = record { value = 250; script_pubkey = 118 ∷ [] } ∷ [];
}

-- One of them twice.
abbrev arriving : List Transaction
arriving = child ∷ payment ∷ orphan ∷ payment ∷ []

add-Refines_example :
    (m' : Mempool) × (log' : Log) × (log'
      ≡ logged_txs deps m'.txstore (new_ids (new 0).txstore arriving))
    × (add deps (new 0) arriving ≡ some (m', length log'))
    × ((t : Txid)
        → Maps.get t m'.txstore ≡ or_kept (last_tx t arriving) (Maps.get t (new 0).txstore))
    × ((o : OutPoint)
        → Maps.get o m'.edges ≡ or_kept (last_spend o log') (Maps.get o (new 0).edges))
    × Refines m' ([] ++ log')
add-Refines_example = add-Refines deps (new 0) [] arriving (start-Refines 0)

-- The mempool with the two.
abbrev pub two : Mempool
two = record {
  txstore = (21, child) ∷ (20, payment) ∷ [];
  feeinfo =
      (21, record { fee = 50; vsize = 110; fee_per_vbyte = 1 })
      ∷ (20, record { fee = 100; vsize = 100; fee_per_vbyte = 1 })
      ∷ [];
  history =
      (118, funding 21 0 250 ∷ funding 20 0 500 ∷ spending 20 0 7 0 900 ∷ [])
      ∷ (169, spending 21 0 20 2 300 ∷ funding 20 2 300 ∷ [])
      ∷ [];
  edges = (out_point 20 2, (21, 0)) ∷ (out_point 7 0, (20, 0)) ∷ [];
  recent =
      record { txid = 20; fee = 100; vsize = 100; value = 900 }
      ∷ record { txid = 21; fee = 50; vsize = 110; value = 300 }
      ∷ [];
  backlog_stats = (new 0).backlog_stats;
  backlog_time = 0;
}

abbrev two_log : Log
two_log = added deps (new 0) (child ∷ payment ∷ [])

added_two : add deps (new 0) (child ∷ payment ∷ []) ≡ some (two, 2)
unfolding add Maps.get Maps.insert ℕ_discrete extract_tx_prevouts OutPoint-discrete Fees.new
    Fees.get_tx_fee
added_two = refl

two-Refines : Refines two two_log
two-Refines = (add-kept deps (new 0) [] (start-Refines 0) (child ∷ payment ∷ []) two 2 added_two).1

remove-Refines_example :
    (m' : Mempool) × (remove deps two (20 ∷ []) ≡ some m')
    × ((t : Txid)
        → contains_key t m'.txstore ≡ (contains_key t two.txstore && not (mem? t (20 ∷ []))))
    × ((o : OutPoint) → Maps.get o m'.edges ≡ unless_of (20 ∷ []) (Maps.get o two.edges))
    × Refines m' (without (20 ∷ []) two_log)
unfolding Maps.get ℕ_discrete
remove-Refines_example = remove-Refines deps two two_log (20 ∷ []) (refl, tt) (refl, tt) two-Refines

-- After a whole `update`, the main loop has listed the two for the next one.
abbrev waiting : System
waiting = record { mempool = two; phase = listed (21 ∷ 20 ∷ []) }

waiting-Reach : Reach 0 waiting
unfolding add remove finish_update Maps.get Maps.insert ℕ_discrete extract_tx_prevouts
    OutPoint-discrete Fees.new Fees.get_tx_fee
waiting-Reach =
    later
      (later (later (later start (list (new 0))) (drop deps (new 0) (new 0) [] (20 ∷ 21 ∷ []) refl))
        (finish deps 5 (new 0) two (child ∷ payment ∷ []) refl))
      (list two)

Reach-never_panics_example :
    ((scripthash : ℕ) (last : Option Txid) (limit : ℕ)
      → (txs : List Transaction) × (history two scripthash last limit ≡ some txs))
    × ((scripthashes : List ℕ) (last : Option Txid) (limit : ℕ)
        → (txs : List Transaction) × (history_group two scripthashes last limit ≡ some txs))
    × ((d : Deps) (txs : List Transaction)
        → (m' : Mempool) × (n : ℕ) × (add d two txs ≡ some (m', n)))
    × ((d : Deps) (old all : List Txid)
        → listed (21 ∷ 20 ∷ []) ≡ listed old
        → (m' : Mempool) × (remove d two (difference old all) ≡ some m'))
Reach-never_panics_example = Reach-never_panics waiting-Reach

abbrev three : Mempool
three = record two { txstore = (21, child) ∷ (20, payment) ∷ (30, orphan) ∷ [] }

add_by_txid-missing_parents_example :
    (contains_key 30 three.txstore ≡ true)
    × Refines three two_log
    × ((d' : Deps) (again : Option Transaction)
        → add_by_txid d' three 30 again ≡ some (three, none))
    × ((all : List Txid) → mem? 30 (difference all (unique_txids three)) ≡ false)
unfolding add add_by_txid Maps.get Maps.insert ℕ_discrete extract_tx_prevouts OutPoint-discrete
    Fees.new Fees.get_tx_fee
add_by_txid-missing_parents_example =
    add_by_txid-missing_parents deps two three two_log orphan two-Refines refl

gather_all_example :
    (gather (length (txids three) + 1) three 2 none ≡ txids three)
    × Ascends (txids three)
    × ((t : Txid) → mem? t (txids three) ≡ contains_key t three.txstore)
unfolding Maps.get ℕ_discrete
gather_all_example = gather_all three 2 (omega arith) (refl, (refl, (refl, tt)))
