-- ===== src/Trading/OrderGateway/Examples.antt =====
-- Concrete runs of a gateway and the order server.
use zquant_system.Prelude.{◌≡◌, refl, none, some, List, [], ◌∷◌, ◌==◌, if◌then◌else◌, arith}
use zquant_system.Prelude.Int.{pos}
use zquant_system.Common.Types.{Side}
use zquant_system.Common.Fault.{ok}
use zquant_system.Messages.{
  MeClientRequest, ClientRequestType, MeClientResponse, ClientResponseType,
}
use zquant_system.Exchange.OrderServer.{OrderServer, recv_callback, send_responses}
use zquant_system.Trading.OrderGateway.{OrderGateway, send_requests}
use zquant_system.Trading.OrderGateway as Gateway
use zquant_system.Trading.OrderGateway.Requests.{taken, recv_callback-send_requests}
use zquant_system.Trading.OrderGateway.Responses.{
  on_wire, responses_for, recv_callback-send_responses,
}
use zquant_system.Trading.OrderGateway.Responses as Responses

abbrev gateway : OrderGateway
gateway = record {
  client_id = 7;
  next_outgoing_seq_num = 3;
  next_exp_seq_num = 2;
  sent = [];
  incoming_responses = [];
}

-- Client 7 is on connection 70, and client 8 on connection 80.
abbrev server : OrderServer
server = record {
  cid_next_outgoing_seq_num = λ c. 2;
  cid_next_exp_seq_num = λ c. 3;
  cid_tcp_socket = λ c. if c == 7 then some 70 else if c == 8 then some 80 else none;
  sent = [];
  fifo_sequencer = record { pending_client_requests = []; incoming_requests = [] };
}

abbrev request : MeClientRequest
request = record {
  type = ClientRequestType.new;
  client_id = 7;
  ticker_id = 1;
  order_id = 4;
  side = Side.buy;
  price = pos 100;
  qty = 30;
}

recv_callback-send_requests_example :
    recv_callback 70 1000 (send_requests (request ∷ request ∷ []) gateway).sent server
    ≡ ok (tt, taken 7 1000 (request ∷ request ∷ []) server)
recv_callback-send_requests_example =
    recv_callback-send_requests 70 1000 7 (request ∷ request ∷ []) gateway server (refl, (refl, tt))
      (omega arith) refl refl refl (omega arith) (omega arith)

abbrev response : MeClientResponse
response = record {
  type = ClientResponseType.accepted;
  client_id = 7;
  ticker_id = 1;
  client_order_id = 4;
  market_order_id = 9;
  side = Side.buy;
  price = pos 100;
  exec_qty = 0;
  leaves_qty = 30;
}

abbrev responses : List MeClientResponse
responses = response ∷ record response { client_id = 8 } ∷ response ∷ []

recv_callback-send_responses_example :
    (d : OrderServer) × (send_responses responses server ≡ ok (tt, d))
    × (Gateway.recv_callback (on_wire 70 d.sent) gateway
        ≡ Responses.taken (responses_for 7 responses) gateway)
recv_callback-send_responses_example =
    recv_callback-send_responses 70 responses gateway server
      ((omega arith, (70, refl)), ((omega arith, (80, refl)), ((omega arith, (70, refl)), tt)))
      (λ k e. ground arith) refl refl refl (omega arith)
