-- ===== src/Dns/Resolver/Exchange.antt =====
-- The retries of the resolver and their round robin.
use nett.Prelude.{
  ℕ, zero, suc, ◌+◌, ◌<◌, ◌%◌, ◌^◌, ◌≡◌, true, none, some, [], ◌-◌, ◌∙◌, Result, ok, err, arith,
}
use nett.Text.{Bytes}
use nett.Config.Validate.{valid_protocol}
use nett.Dns.Message.{Message, new_query}
use nett.Dns.Resolver.{
  Error, World, Resolver, pick_resolver, attempts, attempt, exchange_with_retry, moved,
}

-- one attempt as it turns out: the outcome of the exchange with the resolver whose turn it is
abbrev outcome : {F : Type 0} → World → Bytes → ℕ → Resolver F → Bytes → Result Bytes Message
outcome w name qtype r addr =
    w.exchange r.calls r.cfg.protocol addr (new_query (w.random r.calls % 2 ^ 16) name qtype)

-- `n` attempts fail one after the other, each with the resolver whose turn it is, and the context is
-- never done: from a resolver and an error before, to the resolver and the last error behind them.
pub data Fails {F : Type 0} (w : World) (name : Bytes) (qtype : ℕ)
    : ℕ → Resolver F → Bytes → Resolver F → Bytes → Type 0 where
  start : (r : Resolver F) (before : Bytes) → Fails w name qtype 0 r before r before
  more :
      (n : ℕ) (r r' : Resolver F) (addr before e last : Bytes)
      → pick_resolver r ≡ some addr
      → valid_protocol r.cfg.protocol ≡ true
      → outcome w name qtype r addr ≡ err e
      → w.context_error r.calls ≡ none
      → Fails w name qtype n (moved r) e r' last
      → Fails w name qtype (suc n) r before r' last

-- an attempt that fails goes on to the next
attempt-failed :
    {F : Type 0} (w : World) (name : Bytes) (qtype left : ℕ) (r : Resolver F)
    (before addr e : Bytes)
    → pick_resolver r ≡ some addr
    → valid_protocol r.cfg.protocol ≡ true
    → outcome w name qtype r addr ≡ err e
    → w.context_error r.calls ≡ none
    → attempt w name qtype (suc left) before r ≡ attempt w name qtype left e (moved r)
unfolding attempt
attempt-failed w name qtype left r before addr e turn known failed running =
    rw (turn, known, failed, running, attempt)

-- attempts that fail are used up, one by one
attempt-Fails :
    {F : Type 0} (w : World) (name : Bytes) (qtype n left total : ℕ) (r r' : Resolver F)
    (before last : Bytes)
    → total ≡ n + left
    → Fails w name qtype n r before r' last
    → attempt w name qtype total before r ≡ attempt w name qtype left last r'
attempt-Fails w name qtype zero left total r r' before last sum (start _ _) =
    let same : total ≡ left = omega arith in rw same
attempt-Fails w name qtype (suc n) left zero r r' before last sum
      (more _ _ _ addr _ e _ turn known failed running rest) =
    absurd (omega arith)
attempt-Fails w name qtype (suc n) left (suc total) r r' before last sum
      (more _ _ _ addr _ e _ turn known failed running rest) =
    rw (attempt-failed w name qtype total r before addr e turn known failed running)
      (attempt-Fails w name qtype n left total (moved r) r' e last (omega arith) rest)

-- The first attempt that gets a response ends the exchange with it: when `n` attempts fail while
-- the context is not done, fewer than the attempts that the configuration allows, and the next
-- resolver in turn responds over a known protocol, the result is its response, and the round
-- robin goes on behind it.
pub exchange_with_retry-response :
    {F : Type 0} (w : World) (name : Bytes) (qtype n : ℕ) (r r' : Resolver F) (last addr : Bytes)
    (resp : Message)
    → n < attempts r.cfg.retries
    → Fails w name qtype n r [] r' last
    → pick_resolver r' ≡ some addr
    → valid_protocol r'.cfg.protocol ≡ true
    → outcome w name qtype r' addr ≡ ok resp
    → exchange_with_retry w name qtype r ≡ (ok resp, moved r')
unfolding exchange_with_retry attempt
exchange_with_retry-response w name qtype n r r' last addr resp few fails turn known got =
    let used =
      attempt-Fails w name qtype n (suc (attempts r.cfg.retries - suc n)) (attempts r.cfg.retries) r
        r' [] last (omega arith) fails in
    used ∙ rw (turn, known, got, attempt)

-- The exchange fails with the last error when all the attempts that the configuration allows
-- fail while the context is not done.
pub exchange_with_retry-failed :
    {F : Type 0} (w : World) (name : Bytes) (qtype : ℕ) (r r' : Resolver F) (last : Bytes)
    → Fails w name qtype (attempts r.cfg.retries) r [] r' last
    → exchange_with_retry w name qtype r ≡ (err (Error.failed last), r')
unfolding exchange_with_retry attempt
exchange_with_retry-failed w name qtype r r' last fails =
    attempt-Fails w name qtype (attempts r.cfg.retries) 0 (attempts r.cfg.retries) r r' [] last
      (omega arith) fails
