-- ===== src/Dns/Resolver/Cache.antt =====
-- What the cache of the resolver keeps, and the answers of a query.
use nett.Prelude.{
  ℕ, ◌+◌, ◌≤◌, ◌≡◌, ◌≢◌, false, none, some, List, if◌then◌else◌, ltb, ok, arith, Bool-cases, inl,
  inr, ◌∙◌,
}
use nett.Text.{Bytes, eq}
use nett.Text.Affixes.{eq_iff, eq_refl}
use nett.Dns.Message.{Record, Message}
use nett.Dns.Resolver.{
  Entry, World, Resolver, cache_key, find, cache_get, cache_put, filter_answers, answer_ttl,
  exchange_with_retry, store_answer, query, tick,
}

-- An answer stored in the cache is found under its key until its time to live is over, and not
-- behind that.
pub cache_get-cache_put :
    {F : Type 0} (r : Resolver F) (key : Bytes) (recs : List Record) (rcode ttl now later : ℕ)
    → cache_get (cache_put r key recs rcode ttl now) key later ≡ (
        if ltb (now + ttl) later
        then none
        else some (record { records = recs; rcode = rcode; expires = now + ttl }))
unfolding cache_get cache_put find
cache_get-cache_put r key recs rcode ttl now later = rw (eq_refl key, cache_get)

-- Storing an answer leaves what the cache holds under every other key.
pub cache_get-cache_put_other :
    {F : Type 0} (r : Resolver F) (key other : Bytes) (recs : List Record) (rcode ttl now later : ℕ)
    → other ≢ key
    → cache_get (cache_put r key recs rcode ttl now) other later ≡ cache_get r other later
unfolding cache_get cache_put find
cache_get-cache_put_other r key other recs rcode ttl now later h =
    elim (Bool-cases (eq other key)) [
      | inl e ↦ absurd (h ((eq_iff other key).0 e))
      | inr e ↦ rw (e, cache_get)
    ]

-- the resolver behind a response
abbrev stored : {F : Type 0} → World → Bytes → ℕ → Message → Resolver F → Resolver F
stored w name qtype resp r =
    let recs = filter_answers resp.answers qtype in
    cache_put r (cache_key name qtype) recs resp.rcode (answer_ttl recs resp) (w.now r.calls)

query-response :
    {F : Type 0} (w : World) (name : Bytes) (qtype : ℕ) (r r' : Resolver F) (resp : Message)
    → cache_get r (cache_key name qtype) (w.now r.calls) ≡ none
    → w.wait r.calls ≡ none
    → exchange_with_retry w name qtype (tick r) ≡ (ok resp, r')
    → query w name qtype r
      ≡ (ok (filter_answers resp.answers qtype, resp.rcode), tick (stored w name qtype resp r'))
unfolding query filter_answers cache_put
query-response w name qtype r r' resp miss free got = rw (miss, free, got, query, store_answer)

query-hit :
    {F : Type 0} (w : World) (name : Bytes) (qtype : ℕ) (r : Resolver F) (e : Entry)
    → cache_get r (cache_key name qtype) (w.now r.calls) ≡ some e
    → query w name qtype r ≡ (ok (e.records, e.rcode), tick r)
unfolding query
query-hit w name qtype r e hit = rw (hit, query)

-- The time a stored answer leaves the cache: with the time to live that the code computes.
abbrev pub deadline : {F : Type 0} → World → Message → ℕ → Resolver F → ℕ
deadline w resp qtype r = w.now r.calls + answer_ttl (filter_answers resp.answers qtype) resp

-- what is stored
abbrev entry : {F : Type 0} → World → Message → ℕ → Resolver F → Entry
entry w resp qtype r = record {
  records = filter_answers resp.answers qtype;
  rcode = resp.rcode;
  expires = deadline w resp qtype r;
}

not_later : (a b : ℕ) → a ≤ b → ltb b a ≡ false
not_later a b h = ground (arith, h)

hit :
    {F : Type 0} (w : World) (name : Bytes) (qtype : ℕ) (r : Resolver F) (resp : Message)
    → w.now (r.calls + 1) ≤ deadline w resp qtype r
    → cache_get (tick (stored w name qtype resp r)) (cache_key name qtype) (w.now (r.calls + 1))
      ≡ some (entry w resp qtype r)
unfolding cache_get cache_put
hit w name qtype r resp early =
    let found =
      cache_get-cache_put r (cache_key name qtype) (filter_answers resp.answers qtype) resp.rcode
        (answer_ttl (filter_answers resp.answers qtype) resp) (w.now r.calls)
        (w.now (r.calls + 1)) in
    let fresh = not_later (w.now (r.calls + 1)) (deadline w resp qtype r) early in found ∙ rw fresh

-- A query that misses the cache, is let pass by the limiter and gets a response leaves the
-- answer in the cache: the same query again, when its clock reads no more than the deadline of
-- the answer, gives the same result, and changes nothing of the resolver but the number of its
-- calls.
pub query_again :
    {F : Type 0} (w : World) (name : Bytes) (qtype : ℕ) (r r' : Resolver F) (resp : Message)
    → cache_get r (cache_key name qtype) (w.now r.calls) ≡ none
    → w.wait r.calls ≡ none
    → exchange_with_retry w name qtype (tick r) ≡ (ok resp, r')
    → w.now (r'.calls + 1) ≤ deadline w resp qtype r'
    → query w name qtype (query w name qtype r).1
      ≡ ((query w name qtype r).0, tick (query w name qtype r).1)
unfolding cache_put
query_again w name qtype r r' resp miss free got early =
    let one = query-response w name qtype r r' resp miss free got in
    rw (
      one,
      query-hit w name qtype (tick (stored w name qtype resp r')) (entry w resp qtype r')
          (hit w name qtype r' resp early),
    )
