-- ===== src/Log/Space.antt =====
-- Operations that keep to their share of the log never find it full.
use nice_system_calls.Common.{
  ℕ, suc, ◌+◌, ◌≤◌, ◌≡◌, Bool, true, false, List, [], ◌∷◌, ◌++◌, length, ok,
}
use nice_system_calls.Common.Distinct.{Below}
use nice_system_calls.Log.{
  Log, Block, Store, log_size, max_op_blocks, begin_op, end_op, finish_op, log_write,
}

abbrev pub sum : List ℕ → ℕ
sum [] = 0
sum (x ∷ xs) = x + sum xs

-- The log, and for each operation that has begun the number of blocks it may still write.
pub record Use : Type 0 where
  pub log : Log
  pub left : List ℕ

-- The operations begin, write, end and commit in any order. An operation writes at most
-- MAXOPBLOCKS blocks: that is its promise.
pub data UseStep (u : Use) : Use → Type 0 where
  begins :
      {log' : Log}
      → begin_op u.log ≡ (true, log')
      → UseStep u (record { log = log'; left = max_op_blocks ∷ u.left })
  writes :
      (before after : List ℕ) (n : ℕ) {log' : Log} (b : ℕ) (content : Block) (s : Store)
      {s' : Store}
      → u.left ≡ before ++ suc n ∷ after
      → log_write b content u.log s ≡ ok (log', s')
      → UseStep u (record { log = log'; left = before ++ n ∷ after })
  ends :
      (before after : List ℕ) (n : ℕ) {last : Bool} {log' : Log}
      → u.left ≡ before ++ n ∷ after
      → end_op u.log ≡ ok (last, log')
      → UseStep u (record { log = log'; left = before ++ after })
  commits :
      (s : Store)
      → u.log.committing ≡ true
      → UseStep u (record { log = (finish_op u.log s).0; left = u.left })

pub data Used (size : ℕ) : Use → Type 0 where
  starts :
      (log : Log)
      → log.blocks ≡ []
      → log.outstanding ≡ 0
      → log.committing ≡ false
      → log.size ≡ size
      → Used size (record { log = log; left = [] })
  goes : {u u' : Use} → Used size u → UseStep u u' → Used size u'

record Room (size : ℕ) (u : Use) : Type 0 where
  counted : u.log.outstanding ≡ length u.left
  space : length u.log.blocks + sum u.left ≤ log_size
  shares : Below (suc max_op_blocks) u.left
  size_same : u.log.size ≡ size
