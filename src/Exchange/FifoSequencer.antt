-- ===== src/Exchange/FifoSequencer.antt =====
-- exchange/order_server/fifo_sequencer.h: requests wait with their time of receipt until
-- sequenceAndPublish() writes them to the matching engine's queue by time. The filled part of the
-- array of 1024 pending requests is a list. `std::sort` is a parameter.
use zquant_system.Prelude.{ℕ, List, [], ◌∷◌, ◌++◌, map, length, ltb, if◌then◌else◌}
use zquant_system.Common.Fault.{Cmd, fail, ◌>>=◌, get, modify, fatal}
use zquant_system.Messages.{MeClientRequest}

abbrev pub me_max_pending_requests : ℕ
me_max_pending_requests = 1024

pub record RecvTimeClientRequest : Type 0 where
  pub recv_time : ℕ
  pub request : MeClientRequest

-- `incoming_requests` is what has been written to the engine's queue.
pub record FifoSequencer : Type 0 where
  pub pending_client_requests : List RecvTimeClientRequest
  pub incoming_requests : List MeClientRequest

unfoldable pub add_client_request : ℕ → MeClientRequest → Cmd FifoSequencer (Unit {0})
add_client_request rx_time request = do
  s ← get
  (if ltb (length s.pending_client_requests) me_max_pending_requests
      then modify (λ t. record t {
        pending_client_requests =
            t.pending_client_requests ++ record { recv_time = rx_time; request = request } ∷ [];
      })
      else fail fatal)

module _ (sort : List RecvTimeClientRequest → List RecvTimeClientRequest) where
  unfoldable pub sequence_and_publish : FifoSequencer → FifoSequencer
  sequence_and_publish s = record {
    pending_client_requests = [];
    incoming_requests =
        s.incoming_requests
        ++ map (λ r. RecvTimeClientRequest.request r) (sort s.pending_client_requests);
  }
