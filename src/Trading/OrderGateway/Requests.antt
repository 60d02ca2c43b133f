-- ===== src/Trading/OrderGateway/Requests.antt =====
-- Requests on their way from a gateway to the order server.
use zquant_system.Prelude.{
  ℕ, ◌+◌, ◌^◌, ◌≤◌, ◌<◌, ◌≡◌, refl, ◌∙◌, ap, some, List, [], ◌∷◌, ◌++◌, map, All, append_assoc,
  append-nil, length, length-append, update, update_self, update_twice, update_same, arith,
}
use zquant_system.Common.Types.{me_max_num_clients}
use zquant_system.Common.Fault.{ok}
use zquant_system.Messages.{MeClientRequest, OmClientRequest}
use zquant_system.Exchange.FifoSequencer.{
  RecvTimeClientRequest, me_max_pending_requests, add_client_request,
}
use zquant_system.Exchange.OrderServer.{OrderServer, recv_request, recv_callback, next_seq_num}
use zquant_system.Trading.OrderGateway.{OrderGateway, send_requests}

abbrev pub numbered : ℕ → List MeClientRequest → List OmClientRequest
numbered n [] = []
numbered n (r ∷ rs) = record { seq_num = n; me_client_request = r } ∷ numbered (n + 1) rs

-- The gateway once it has sent one request.
abbrev sent_one : MeClientRequest → OrderGateway → OrderGateway
sent_one r g = record g {
  sent = g.sent ++ record { seq_num = g.next_outgoing_seq_num; me_client_request = r } ∷ [];
  next_outgoing_seq_num = next_seq_num g.next_outgoing_seq_num;
}

pub send_requests-numbered :
    (rs : List MeClientRequest) (g : OrderGateway)
    → g.next_outgoing_seq_num + length rs < 2 ^ 64
    → (send_requests rs g).sent ≡ g.sent ++ numbered g.next_outgoing_seq_num rs
unfolding send_requests
send_requests-numbered [] g h = rw append-nil
send_requests-numbered (r ∷ rs) g h =
    let next : next_seq_num g.next_outgoing_seq_num ≡ g.next_outgoing_seq_num + 1 = omega arith in
    let later = send_requests-numbered rs (sent_one r g) (omega arith) in
    rw (later, append_assoc, next)

abbrev pub timed : ℕ → MeClientRequest → RecvTimeClientRequest
timed rx_time r = record { recv_time = rx_time; request = r }

-- The server once it has taken the requests `rs` of a client.
abbrev pub taken : ℕ → ℕ → List MeClientRequest → OrderServer → OrderServer
taken client_id rx_time rs s = record s {
  cid_next_exp_seq_num =
      update s.cid_next_exp_seq_num client_id (s.cid_next_exp_seq_num client_id + length rs);
  fifo_sequencer = record (s.fifo_sequencer) {
    pending_client_requests = s.fifo_sequencer.pending_client_requests ++ map (timed rx_time) rs;
  };
}

recv_request-next :
    (socket rx_time c n : ℕ) (r : MeClientRequest) (s : OrderServer)
    → r.client_id ≡ c
    → c < me_max_num_clients
    → s.cid_tcp_socket c ≡ some socket
    → s.cid_next_exp_seq_num c ≡ n
    → n + 1 < 2 ^ 64
    → length s.fifo_sequencer.pending_client_requests < me_max_pending_requests
    → recv_request socket rx_time (record { seq_num = n; me_client_request = r }) s
      ≡ ok (tt, taken c rx_time (r ∷ []) s)
unfolding recv_request add_client_request
recv_request-next socket rx_time c n r s own client bound exp seq room = rw own (ground arith)

-- One request, and then the others.
taken-cons :
    (c rx_time : ℕ) (r : MeClientRequest) (rs : List MeClientRequest) (s : OrderServer)
    → taken c rx_time rs (taken c rx_time (r ∷ []) s) ≡ taken c rx_time (r ∷ rs) s
taken-cons c rx_time r rs s =
    rw
      (
        update_twice s.cid_next_exp_seq_num c (s.cid_next_exp_seq_num c + 1),
        append_assoc s.fifo_sequencer.pending_client_requests (timed rx_time r ∷ [])
            (map (timed rx_time) rs),
        update_self s.cid_next_exp_seq_num c (s.cid_next_exp_seq_num c + 1),
      )
      (ground arith)

recv_callback-numbered :
    (socket rx_time c n : ℕ) (rs : List MeClientRequest) (s : OrderServer)
    → All (λ r. MeClientRequest.client_id r ≡ c) rs
    → c < me_max_num_clients
    → s.cid_tcp_socket c ≡ some socket
    → s.cid_next_exp_seq_num c ≡ n
    → n + length rs < 2 ^ 64
    → length s.fifo_sequencer.pending_client_requests + length rs ≤ me_max_pending_requests
    → recv_callback socket rx_time (numbered n rs) s ≡ ok (tt, taken c rx_time rs s)
unfolding recv_callback
recv_callback-numbered socket rx_time c n [] s own client bound exp seq room =
    let same = update_same s.cid_next_exp_seq_num c (s.cid_next_exp_seq_num c + 0) (omega arith) in
    rw (same, append-nil) refl
recv_callback-numbered socket rx_time c n (r ∷ rs) s (own, others) client bound exp seq room =
    let pending = s.fifo_sequencer.pending_client_requests in
    let one =
      recv_request-next socket rx_time c n r s own client bound exp (omega arith) (omega arith) in
    let next : update s.cid_next_exp_seq_num c (s.cid_next_exp_seq_num c + 1) c ≡ n + 1 =
      update_self s.cid_next_exp_seq_num c (s.cid_next_exp_seq_num c + 1) ∙ ap (λ k. k + 1) exp in
    let more : length (pending ++ timed rx_time r ∷ []) ≡ length pending + 1 =
      length-append pending (timed rx_time r ∷ []) in
    let later =
      recv_callback-numbered socket rx_time c (n + 1) rs (taken c rx_time (r ∷ []) s) others client
        bound next (omega arith) (omega arith) in
    rw one (later ∙ ap (λ t. ok (tt, t)) (taken-cons c rx_time r rs s))

-- What a gateway sends is taken whole and in order by a server that has its client on this
-- connection and expects its first number, as long as the server has room for it and the numbers
-- stay below 2 ^ 64.
pub recv_callback-send_requests :
    (socket rx_time c : ℕ) (rs : List MeClientRequest) (g : OrderGateway) (s : OrderServer)
    → All (λ r. MeClientRequest.client_id r ≡ c) rs
    → c < me_max_num_clients
    → s.cid_tcp_socket c ≡ some socket
    → g.sent ≡ []
    → s.cid_next_exp_seq_num c ≡ g.next_outgoing_seq_num
    → g.next_outgoing_seq_num + length rs < 2 ^ 64
    → length s.fifo_sequencer.pending_client_requests + length rs ≤ me_max_pending_requests
    → recv_callback socket rx_time (send_requests rs g).sent s ≡ ok (tt, taken c rx_time rs s)
recv_callback-send_requests socket rx_time c rs g s own client bound empty same h room =
    rw (send_requests-numbered rs g h, empty)
      (recv_callback-numbered socket rx_time c g.next_outgoing_seq_num rs s own client bound same h
        room)
