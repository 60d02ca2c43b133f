-- ===== src/Trading/OrderGateway/Responses.antt =====
-- Responses on their way from the order server to a gateway.
use zquant_system.Prelude.{
  ℕ, ◌+◌, ◌^◌, ◌<◌, ◌≡◌, ◌≢◌, refl, ◌∙◌, ap, inl, inr, true, false, some, List, [], ◌∷◌, ◌++◌, All,
  append_assoc, append-nil, length, update, ◌==◌, if◌then◌else◌, arith, Bool-cases,
}
use zquant_system.Common.Types.{ClientId, me_max_num_clients}
use zquant_system.Common.Fault.{ok}
use zquant_system.Messages.{MeClientResponse, OmClientResponse}
use zquant_system.Exchange.OrderServer.{OrderServer, send_response, send_responses, next_seq_num}
use zquant_system.Trading.OrderGateway.{OrderGateway, recv_response, recv_callback}

abbrev pub numbered : ℕ → List MeClientResponse → List OmClientResponse
numbered n [] = []
numbered n (r ∷ rs) = record { seq_num = n; me_client_response = r } ∷ numbered (n + 1) rs

-- The responses for one client.
abbrev pub responses_for : ClientId → List MeClientResponse → List MeClientResponse
responses_for c [] = []
responses_for c (r ∷ rs) = if r.client_id == c then r ∷ responses_for c rs else responses_for c rs

-- What goes out on one connection.
abbrev pub on_wire : ℕ → List (ℕ × OmClientResponse) → List OmClientResponse
on_wire p [] = []
on_wire p ((q, m) ∷ ms) = if q == p then m ∷ on_wire p ms else on_wire p ms

on_wire-append :
    (p : ℕ) (ms ns : List (ℕ × OmClientResponse))
    → on_wire p (ms ++ ns) ≡ on_wire p ms ++ on_wire p ns
on_wire-append p [] ns = refl
on_wire-append p ((q, m) ∷ ms) ns = ground (arith, on_wire-append p ms ns)

-- A client with a connection.
abbrev pub IsConnected : OrderServer → MeClientResponse → Type 0
IsConnected s r =
    (r.client_id < me_max_num_clients) × ((q : ℕ) × (s.cid_tcp_socket r.client_id ≡ some q))

abbrev sent_one : MeClientResponse → ℕ → OrderServer → OrderServer
sent_one r q s = record s {
  sent =
      s.sent
      ++ (q, record { seq_num = s.cid_next_outgoing_seq_num r.client_id; me_client_response = r })
        ∷ [];
  cid_next_outgoing_seq_num =
      update s.cid_next_outgoing_seq_num r.client_id
        (next_seq_num (s.cid_next_outgoing_seq_num r.client_id));
}

send_response-connected :
    (r : MeClientResponse) (q : ℕ) (s : OrderServer)
    → r.client_id < me_max_num_clients
    → s.cid_tcp_socket r.client_id ≡ some q
    → send_response r s ≡ ok (tt, sent_one r q s)
unfolding send_response
send_response-connected r q s client e = ground arith

abbrev Sends : ℕ → ℕ → ℕ → List MeClientResponse → OrderServer → Type 0
Sends p c n rs s =
    (d : OrderServer) × (send_responses rs s ≡ ok (tt, d))
    × (on_wire p d.sent ≡ on_wire p s.sent ++ numbered n (responses_for c rs))

module _ (p c : ℕ) where
  -- What one response adds to the connection.
  sent-own :
      (n : ℕ) (r : MeClientResponse) (rs : List MeClientResponse) (q : ℕ) (s : OrderServer)
      → (r.client_id == c) ≡ true
      → s.cid_next_outgoing_seq_num c ≡ n
      → q ≡ p
      → on_wire p (sent_one r q s).sent ++ numbered (n + 1) (responses_for c rs)
        ≡ on_wire p s.sent ++ numbered n (responses_for c (r ∷ rs))
  sent-own n r rs q s own out here =
      rw
        (
          on_wire-append p s.sent (
              (
                q,
                record {
                  seq_num = s.cid_next_outgoing_seq_num r.client_id;
                  me_client_response = r;
                },
              )
              ∷ []),
          append_assoc,
        )
        (ground arith)

  sent-other :
      (n : ℕ) (r : MeClientResponse) (rs : List MeClientResponse) (q : ℕ) (s : OrderServer)
      → (r.client_id == c) ≡ false
      → q ≢ p
      → on_wire p (sent_one r q s).sent ++ numbered n (responses_for c rs)
        ≡ on_wire p s.sent ++ numbered n (responses_for c (r ∷ rs))
  sent-other n r rs q s other away =
      rw
        (
          on_wire-append p s.sent (
              (
                q,
                record {
                  seq_num = s.cid_next_outgoing_seq_num r.client_id;
                  me_client_response = r;
                },
              )
              ∷ []),
          append_assoc,
        )
        (ground arith)

  send_responses-Sends :
      (n : ℕ) (rs : List MeClientResponse) (s : OrderServer)
      → All (IsConnected s) rs
      → ((k : ClientId) → s.cid_tcp_socket k ≡ some p → k ≡ c)
      → s.cid_tcp_socket c ≡ some p
      → s.cid_next_outgoing_seq_num c ≡ n
      → n + length (responses_for c rs) < 2 ^ 64
      → Sends p c n rs s
  unfolding send_responses
  send_responses-Sends n [] s all alone bound out h = (s, refl, rw append-nil refl)
  send_responses-Sends n (r ∷ rs) s ((client, (q, e)), all) alone bound out h =
      elim (Bool-cases (r.client_id == c)) [
        | inl own ↦
            let same : r.client_id ≡ c = ground arith in
            let here : q ≡ p = ground arith in
            let (d, run, wire) =
              send_responses-Sends (n + 1) rs (sent_one r q s) all alone bound (ground arith)
                (ground arith) in
            (
              d,
              rw (send_response-connected r q s client e) run,
              wire ∙ sent-own n r rs q s own out here,
            )
        | inr other ↦
            let away : q ≢ p = λ f. ground (arith, alone r.client_id) in
            let (d, run, wire) =
              send_responses-Sends n rs (sent_one r q s) all alone bound (ground arith)
                (ground arith) in
            (
              d,
              rw (send_response-connected r q s client e) run,
              wire ∙ sent-other n r rs q s other away,
            )
      ]

-- The gateway once it has taken some responses.
abbrev pub taken : List MeClientResponse → OrderGateway → OrderGateway
taken rs g = record g {
  next_exp_seq_num = g.next_exp_seq_num + length rs;
  incoming_responses = g.incoming_responses ++ rs;
}

recv_response-next :
    (r : MeClientResponse) (g : OrderGateway)
    → r.client_id ≡ g.client_id
    → g.next_exp_seq_num + 1 < 2 ^ 64
    → recv_response (record { seq_num = g.next_exp_seq_num; me_client_response = r }) g
      ≡ taken (r ∷ []) g
unfolding recv_response
recv_response-next r g own h = ground arith

recv_callback-numbered :
    (rs : List MeClientResponse) (g : OrderGateway)
    → All (λ r. MeClientResponse.client_id r ≡ g.client_id) rs
    → g.next_exp_seq_num + length rs < 2 ^ 64
    → recv_callback (numbered g.next_exp_seq_num rs) g ≡ taken rs g
unfolding recv_callback
recv_callback-numbered [] g own h = rw append-nil (ground arith)
recv_callback-numbered (r ∷ rs) g (own, others) h =
    let later = recv_callback-numbered rs (taken (r ∷ []) g) others (omega arith) in
    let count : g.next_exp_seq_num + 1 + length rs ≡ g.next_exp_seq_num + (length rs + 1) =
      omega arith in
    ap (recv_callback (numbered (g.next_exp_seq_num + 1) rs))
      (recv_response-next r g own (omega arith))
    ∙ later
    ∙ rw (append_assoc, count) (ground arith)

responses_for-own :
    (c : ClientId) (rs : List MeClientResponse)
    → All (λ r. MeClientResponse.client_id r ≡ c) (responses_for c rs)
responses_for-own c [] = tt
responses_for-own c (r ∷ rs) = elim (Bool-cases (r.client_id == c)) [
  | inl own ↦ rw own (ground arith, responses_for-own c rs)
  | inr other ↦ rw other (responses_for-own c rs)
]

-- The server sends the responses of any clients that are connected without a fault, and the gateway
-- of one of them, whose connection is no other client's and which expects the server's next number,
-- takes from it just the responses for its client, in order, short of 2 ^ 64 of them.
pub recv_callback-send_responses :
    (p : ℕ) (rs : List MeClientResponse) (g : OrderGateway) (s : OrderServer)
    → All (IsConnected s) rs
    → ((k : ClientId) → s.cid_tcp_socket k ≡ some p → k ≡ g.client_id)
    → s.cid_tcp_socket g.client_id ≡ some p
    → s.cid_next_outgoing_seq_num g.client_id ≡ g.next_exp_seq_num
    → on_wire p s.sent ≡ []
    → g.next_exp_seq_num + length (responses_for g.client_id rs) < 2 ^ 64
    → (d : OrderServer) × (send_responses rs s ≡ ok (tt, d))
      × (recv_callback (on_wire p d.sent) g ≡ taken (responses_for g.client_id rs) g)
recv_callback-send_responses p rs g s all alone bound out empty h =
    let (d, run, wire) =
      send_responses-Sends p g.client_id g.next_exp_seq_num rs s all alone bound out h in
    (
      d,
      run,
      rw (wire, empty)
          (recv_callback-numbered (responses_for g.client_id rs) g
            (responses_for-own g.client_id rs) h),
    )
