-- ===== src/Sync/Pipeline.antt =====
-- The goroutines of syncDirectory in internal/eds/pkg/datasync/directory.go, interleaved in any order: the
-- producer reads the export stream to its end, the subscriber takes from the channel until it is
-- closed and empty, and the channel holds 10000 messages at most. A message goes into the filter and
-- into the channel in one step, as only the producer touches the filter. The goroutine that logs
-- errors always takes the next one, so errors never block the subscriber. The subscriber works in one
-- batch of the store: it may fail to begin, before the first message is taken, and to commit, after the
-- last one, and either way the subscriber ends with the error.
pub mod Confluent
use eamerald.Base.{ℕ, suc, ◌+◌, ◌<◌, ◌≡◌, Bool, true, false, List, [], ◌∷◌, ◌++◌, length}
use eamerald.Store.Tx.{Tx}
use eamerald.Service.Context.{Context}
use eamerald.Sync.Filter.{Cuckoo}
use eamerald.Sync.Directory.{ExportMsg, Received, nothing_received, is_sent, note_export, receive}

abbrev pub channel_size : ℕ
channel_size = 10000

module _ (tx : Tx) (ctx : Context) (cuckoo : Cuckoo) (diff : Bool) where
  -- `unread` is what Recv has still to return before it fails or reports the end of the stream.
  pub record Pipe : Type 0 where
    pub unread : List ExportMsg
    pub filter : cuckoo.Filter
    pub channel : List ExportMsg
    pub closed : Bool
    pub got : Received
    pub store : tx.State
    pub finished : Bool
    -- The batch: whether it has begun, whether it has failed, and the store before it.
    pub begun : Bool
    pub failed : Bool
    pub before : tx.State

  abbrev pub start : List ExportMsg → cuckoo.Filter → tx.State → Pipe
  start msgs f s = record {
    unread = msgs;
    filter = f;
    channel = [];
    closed = false;
    got = nothing_received;
    store = s;
    finished = false;
    begun = false;
    failed = false;
    before = s;
  }

  -- A step of either goroutine.
  pub data Step (p : Pipe) : Pipe → Type 0 where
    send :
        (m : ExportMsg) (rest : List ExportMsg)
        → p.closed ≡ false
        → p.unread ≡ m ∷ rest
        → is_sent m ≡ true
        → length p.channel < channel_size
        → Step p (record p {
          unread = rest;
          filter = note_export cuckoo diff m p.filter;
          channel = p.channel ++ m ∷ [];
        })
    pass :
        (m : ExportMsg) (rest : List ExportMsg)
        → p.closed ≡ false
        → p.unread ≡ m ∷ rest
        → is_sent m ≡ false
        → Step p (record p { unread = rest })
    close : p.closed ≡ false → p.unread ≡ [] → Step p (record p { closed = true })
    take_next :
        (m : ExportMsg) (rest : List ExportMsg)
        → p.finished ≡ false
        → p.channel ≡ m ∷ rest
        → Step p (record p {
          channel = rest;
          got = (receive tx ctx m p.got p.store).0;
          store = (receive tx ctx m p.got p.store).1;
          begun = true;
        })
    finish :
        p.finished ≡ false
        → p.closed ≡ true
        → p.channel ≡ []
        → Step p (record p { finished = true })
    refuse :
        p.finished ≡ false → p.begun ≡ false → Step p (record p { finished = true; failed = true })
    abort :
        p.finished ≡ false
        → p.closed ≡ true
        → p.channel ≡ []
        → Step p (record p { finished = true; failed = true; store = p.before })

  -- A run, with the number of its steps.
  pub data Run (p : Pipe) : ℕ → Pipe → Type 0 where
    here : Run p 0 p
    and_then : {n : ℕ} {q r : Pipe} → Run p n q → Step q r → Run p (suc n) r
