-- ===== src/Exchange/MarketData/Publisher.antt =====
-- exchange/market_data/market_data_publisher.cpp: numbers the engine's market updates. Each is sent
-- on the incremental stream and handed on to the snapshot synthesizer.
use zquant_system.Prelude.{
  ℕ, ◌+◌, ◌%◌, ◌^◌, ◌<◌, ◌≡◌, List, [], ◌∷◌, ◌++◌, append_assoc, append-nil, length, arith,
}
use zquant_system.Messages.{MeMarketUpdate, MdpMarketUpdate}

-- `++` of a sequence number, a `size_t`.
abbrev pub next_seq_num : ℕ → ℕ
next_seq_num n = (n + 1) % 2 ^ 64

-- `incremental_stream` is what has been sent on the socket, `snapshot_md_updates` what has been
-- written to the synthesizer's queue.
pub record MarketDataPublisher : Type 0 where
  pub next_inc_seq_num : ℕ
  pub incremental_stream : List MdpMarketUpdate
  pub snapshot_md_updates : List MdpMarketUpdate

-- One turn of the loop over the queue.
unfoldable pub publish : MeMarketUpdate → MarketDataPublisher → MarketDataPublisher
publish market_update p =
    let numbered : MdpMarketUpdate = record {
      seq_num = p.next_inc_seq_num;
      me_market_update = market_update;
    } in
    record {
      next_inc_seq_num = next_seq_num p.next_inc_seq_num;
      incremental_stream = p.incremental_stream ++ numbered ∷ [];
      snapshot_md_updates = p.snapshot_md_updates ++ numbered ∷ [];
    }

-- The loop over what the queue holds.
unfoldable pub run_publisher : List MeMarketUpdate → MarketDataPublisher → MarketDataPublisher
unfolding publish
run_publisher [] p = p
run_publisher (u ∷ us) p = run_publisher us (publish u p)

-- Messages under consecutive numbers.
abbrev pub numbered : ℕ → List MeMarketUpdate → List MdpMarketUpdate
numbered n [] = []
numbered n (u ∷ us) = record { seq_num = n; me_market_update = u } ∷ numbered (n + 1) us

-- Short of 2 ^ 64 messages, both streams get the updates in order, numbered one by one.
pub run_publisher-numbered :
    (us : List MeMarketUpdate) (p : MarketDataPublisher)
    → p.next_inc_seq_num + length us < 2 ^ 64
    → (((run_publisher us p).incremental_stream
          ≡ p.incremental_stream ++ numbered p.next_inc_seq_num us)
        × ((run_publisher us p).snapshot_md_updates
            ≡ p.snapshot_md_updates ++ numbered p.next_inc_seq_num us))
      × ((run_publisher us p).next_inc_seq_num ≡ p.next_inc_seq_num + length us)
unfolding run_publisher publish
run_publisher-numbered [] p h = ((rw append-nil, rw append-nil), omega arith)
run_publisher-numbered (u ∷ us) p h =
    let next : next_seq_num p.next_inc_seq_num ≡ p.next_inc_seq_num + 1 = omega arith in
    let ((i, s), n) = run_publisher-numbered us (publish u p) (omega arith) in
    ((rw (i, append_assoc, next), rw (s, append_assoc, next)), omega arith)
