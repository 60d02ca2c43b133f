-- ===== src/Trading/MarketDataConsumer/InOrder.antt =====
-- A consumer that is not in recovery, and the publisher's stream.
use zquant_system.Prelude.{
  ◌+◌, ◌^◌, ◌<◌, ◌≡◌, sym, Bool, false, List, [], ◌∷◌, ◌++◌, append_assoc, append-nil, length,
  arith,
}
use zquant_system.Common.Fault.{ok}
use zquant_system.Messages.{MeMarketUpdate}
use zquant_system.Exchange.MarketData.Publisher.{
  MarketDataPublisher, numbered, run_publisher, run_publisher-numbered,
}
use zquant_system.Trading.MarketDataConsumer.{
  MarketDataConsumer, receive, receive_all, recv_callback,
}

abbrev pub delivered : MarketDataConsumer → List MeMarketUpdate → MarketDataConsumer
delivered c us = record c {
  next_exp_inc_seq_num = c.next_exp_inc_seq_num + length us;
  incoming_md_updates = c.incoming_md_updates ++ us;
}

module _ (init join : Bool) where
  receive-next :
      (u : MeMarketUpdate) (c : MarketDataConsumer)
      → c.in_recovery ≡ false
      → c.next_exp_inc_seq_num + 1 < 2 ^ 64
      → receive init join false
          (record { seq_num = c.next_exp_inc_seq_num; me_market_update = u })
          c
        ≡ ok (tt, delivered c (u ∷ []))
  unfolding receive
  receive-next u c r h = ground arith

  receive_all-numbered :
      (us : List MeMarketUpdate) (c : MarketDataConsumer)
      → c.in_recovery ≡ false
      → c.next_exp_inc_seq_num + length us < 2 ^ 64
      → receive_all init join false (numbered c.next_exp_inc_seq_num us) c ≡ ok (tt, delivered c us)
  unfolding receive_all
  receive_all-numbered [] c r h = rw append-nil (ground arith)
  receive_all-numbered (u ∷ us) c r h =
      let later = receive_all-numbered us (delivered c (u ∷ [])) r (omega arith) in
      let count : c.next_exp_inc_seq_num + 1 + length us
          ≡ c.next_exp_inc_seq_num + (length us + 1) =
        omega arith in
      rw (receive-next u c r (omega arith), later, append_assoc, count) (ground arith)

  -- What a publisher sends, received by a consumer that expects its first number and is not in
  -- recovery, is handed on unchanged and in order, short of 2 ^ 64 messages.
  pub recv_callback-run_publisher :
      (us : List MeMarketUpdate) (p : MarketDataPublisher) (c : MarketDataConsumer)
      → p.incremental_stream ≡ []
      → c.next_exp_inc_seq_num ≡ p.next_inc_seq_num
      → c.in_recovery ≡ false
      → p.next_inc_seq_num + length us < 2 ^ 64
      → recv_callback init join false ((run_publisher us p).incremental_stream) c
        ≡ ok (tt, delivered c us)
  unfolding recv_callback
  recv_callback-run_publisher us p c empty same r h =
      let (sent, n) = run_publisher-numbered us p h in
      rw (sent.0, empty, sym same) (receive_all-numbered us c r (omega arith))
