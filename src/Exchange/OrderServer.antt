-- ===== src/Exchange/OrderServer.antt =====
-- exchange/order_server/order_server.h: numbered requests come in on the clients' connections,
-- numbered responses go out on them. A connection is a number; what is sent is appended to a list
-- with its connection. The clients' arrays are indexed without a test.
use zquant_system.Prelude.{
  ℕ, ◌+◌, ◌%◌, ◌^◌, not, Option, some, List, [], ◌∷◌, ◌++◌, ltb, ◌==◌, is_some, update,
  if◌then◌else◌,
}
use zquant_system.Common.Types.{ClientId, me_max_num_clients}
use zquant_system.Common.Fault.{
  ok, err, Cmd, pure, ◌>>=◌, ◌>>◌, in_range, assert, deref, get, modify,
}
use zquant_system.Messages.{OmClientRequest, MeClientResponse, OmClientResponse}
use zquant_system.Book.{is_at}
use zquant_system.Exchange.FifoSequencer.{
  FifoSequencer, add_client_request, sequence_and_publish, RecvTimeClientRequest,
}

pub record OrderServer : Type 0 where
  pub cid_next_outgoing_seq_num : ClientId → ℕ
  pub cid_next_exp_seq_num : ClientId → ℕ
  pub cid_tcp_socket : ClientId → Option ℕ
  pub sent : List (ℕ × OmClientResponse)
  pub fifo_sequencer : FifoSequencer

-- `++` of a sequence number, a `size_t`.
abbrev pub next_seq_num : ℕ → ℕ
next_seq_num n = (n + 1) % 2 ^ 64

-- One turn of the loop over the outgoing responses.
unfoldable pub send_response : MeClientResponse → Cmd OrderServer (Unit {0})
send_response r = do
  in_range (ltb r.client_id me_max_num_clients)
  s ← get
  assert (is_some (s.cid_tcp_socket r.client_id))
  socket ← deref (s.cid_tcp_socket r.client_id)
  modify (λ t. record t {
    sent =
        t.sent
        ++ (
          socket,
          record { seq_num = t.cid_next_outgoing_seq_num r.client_id; me_client_response = r },
        )
          ∷ [];
    cid_next_outgoing_seq_num =
        update t.cid_next_outgoing_seq_num r.client_id
          (next_seq_num (t.cid_next_outgoing_seq_num r.client_id));
  })

unfoldable pub send_responses : List MeClientResponse → Cmd OrderServer (Unit {0})
unfolding send_response
send_responses [] = pure tt
send_responses (r ∷ rs) = send_response r >> send_responses rs

abbrev pub on_sequencer : Cmd FifoSequencer (Unit {0}) → Cmd OrderServer (Unit {0})
on_sequencer c s = elim (c s.fifo_sequencer) [
  | ok (a, f) ↦ ok (a, record s { fifo_sequencer = f })
  | err e ↦ err e
]

-- The first message of a client binds it to its connection.
abbrev bind_socket : ClientId → ℕ → OrderServer → OrderServer
bind_socket client_id socket s =
    if is_some (s.cid_tcp_socket client_id)
    then s
    else record s { cid_tcp_socket = update s.cid_tcp_socket client_id (some socket) }

-- One message of the loop of recvCallback(). One on another connection, or out of sequence, is
-- dropped.
unfoldable pub recv_request : (socket rx_time : ℕ) → OmClientRequest → Cmd OrderServer (Unit {0})
unfolding add_client_request
recv_request socket rx_time m = do
  in_range (ltb m.me_client_request.client_id me_max_num_clients)
  modify (bind_socket m.me_client_request.client_id socket)
  s ← get
  (if not (is_at (s.cid_tcp_socket m.me_client_request.client_id) socket)
      then pure tt
      else if not (m.seq_num == s.cid_next_exp_seq_num m.me_client_request.client_id)
      then pure tt
      else (do
        modify (λ t. record t {
          cid_next_exp_seq_num =
              update t.cid_next_exp_seq_num m.me_client_request.client_id
                (next_seq_num (t.cid_next_exp_seq_num m.me_client_request.client_id));
        })
        on_sequencer (add_client_request rx_time m.me_client_request)))

-- recvCallback(), on the whole messages that the connection's buffer holds.
unfoldable pub recv_callback :
    (socket rx_time : ℕ) → List OmClientRequest → Cmd OrderServer (Unit {0})
unfolding recv_request
recv_callback socket rx_time [] = pure tt
recv_callback socket rx_time (m ∷ ms) =
    recv_request socket rx_time m >> recv_callback socket rx_time ms

unfoldable pub recv_finished_callback :
    (List RecvTimeClientRequest → List RecvTimeClientRequest) → OrderServer → OrderServer
unfolding sequence_and_publish
recv_finished_callback sort s = record s {
  fifo_sequencer = sequence_and_publish sort s.fifo_sequencer;
}
