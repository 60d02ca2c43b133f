-- ===== src/Trading/OrderGateway.antt =====
-- trading/order_gw/order_gateway.h and order_gateway.cpp: the client's end of its connection to the
-- exchange. What is sent, and what is written to the trade engine's queue, are lists.
pub mod Requests
pub mod Responses
mod Examples
use zquant_system.Prelude.{ℕ, ◌+◌, ◌%◌, ◌^◌, not, ◌||◌, List, [], ◌∷◌, ◌++◌, ◌==◌, if◌then◌else◌}
use zquant_system.Common.Types.{ClientId}
use zquant_system.Messages.{MeClientRequest, OmClientRequest, MeClientResponse, OmClientResponse}

pub record OrderGateway : Type 0 where
  pub client_id : ClientId
  pub next_outgoing_seq_num : ℕ
  pub next_exp_seq_num : ℕ
  pub sent : List OmClientRequest
  pub incoming_responses : List MeClientResponse

abbrev pub next_seq_num : ℕ → ℕ
next_seq_num n = (n + 1) % 2 ^ 64

-- The loop of run() over the requests in the queue.
unfoldable pub send_requests : List MeClientRequest → OrderGateway → OrderGateway
send_requests [] g = g
send_requests (r ∷ rs) g = send_requests rs (record g {
  sent = g.sent ++ record { seq_num = g.next_outgoing_seq_num; me_client_request = r } ∷ [];
  next_outgoing_seq_num = next_seq_num g.next_outgoing_seq_num;
})

-- One message of the loop of recvCallback(); another client's, or one out of sequence, is dropped.
unfoldable pub recv_response : OmClientResponse → OrderGateway → OrderGateway
recv_response m g =
    if not (m.me_client_response.client_id == g.client_id) || not (m.seq_num == g.next_exp_seq_num)
    then g
    else record g {
      next_exp_seq_num = next_seq_num g.next_exp_seq_num;
      incoming_responses = g.incoming_responses ++ m.me_client_response ∷ [];
    }

-- recvCallback(), on the whole messages that the connection's buffer holds.
unfoldable pub recv_callback : List OmClientResponse → OrderGateway → OrderGateway
unfolding recv_response
recv_callback [] g = g
recv_callback (m ∷ ms) g = recv_callback ms (recv_response m g)
