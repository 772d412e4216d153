-- ===== src/Dns/Resolver.antt =====
-- internal/dns/resolver.go: the caching resolver. What it asks of the outside (the clock, the rate
-- limiter, the transports, the context) is the record `World`: each call gets the number of the
-- calls before it, which the resolver counts in `calls`. The mutex makes each method of the cache and
-- of the round-robin index one step. A Go duration is a number of nanoseconds.
pub mod Exchange
pub mod Cache
pub mod Lookups
use nett.Prelude.{
  ℕ, zero, suc, ◌+◌, ◌*◌, ◌%◌, ◌^◌, Bool, true, false, ◌&&◌, ◌||◌, Option, none, some, List, [],
  ◌∷◌, ◌++◌, ◌==◌, if◌then◌else◌, ltb, length, get_elem?, any, Result, ok, err, ◌>>=◌, ◌>>◌, check,
  map,
}
use nett.Text.{Bytes, codes, eq, trim_suffix, to_lower}
use nett.Text.Decimal.{ℤ}
use nett.Net.{Net, Ip}
use nett.Config.{DnsConfig}
use nett.Config.Validate.{is_not_empty, valid_protocol}
use nett.Dns.RrType
use nett.Dns.Rcode
use nett.Dns.Message.{rr_type_string, Soa, Record, Message, new_query}

pub data Error : Type 0 where
  -- an index out of range, or a remainder by zero
  panic : Error
  no_resolvers unknown_protocol : Error
  -- an error of the rate limiter or of the context
  stopped : Bytes → Error
  -- all attempts failed; the last error
  failed : Bytes → Error
  cname_loop too_many_hops : Bytes → Error

pub record Entry : Type 0 where
  pub records : List Record
  pub rcode : ℕ
  pub expires : ℕ

pub record World : Type 0 where
  pub now : ℕ → ℕ
  -- the error of limit.Wait
  pub wait : ℕ → Option Bytes
  -- uint16(rand.Intn(1 << 16))
  pub random : ℕ → ℕ
  -- the exchange of a protocol with an address
  pub exchange : ℕ → Bytes → Bytes → Message → Result Bytes Message
  -- ctx.Err()
  pub context_error : ℕ → Option Bytes

pub record Resolver (F : Type 0) : Type 0 where
  pub cfg : DnsConfig F
  pub next : ℕ
  pub cache : List (Bytes × Entry)
  pub calls : ℕ

abbrev pub second : ℕ
second = 1000000000

-- defaultNegativeTTL
abbrev pub default_negative_ttl : ℕ
default_negative_ttl = 30 * second

-- New
unfoldable pub new : {F : Type 0} → DnsConfig F → Result Error (Resolver F)
new cfg = do
  check (is_not_empty cfg.resolvers) Error.no_resolvers
  check (valid_protocol cfg.protocol) Error.unknown_protocol
  ok (record { cfg = cfg; next = 0; cache = []; calls = 0 })

-- cacheKey
unfoldable pub cache_key : Bytes → ℕ → Bytes
unfolding trim_suffix to_lower rr_type_string
cache_key name qtype = to_lower (trim_suffix name (codes ".")) ++ (0 ∷ rr_type_string qtype)

-- r.cache[key]
unfoldable pub find : Bytes → List (Bytes × Entry) → Option Entry
unfolding eq
find key [] = none
find key ((k, e) ∷ rest) = let below = find key rest in if eq key k then some e else below

-- cacheGet at the time `now`
unfoldable pub cache_get : {F : Type 0} → Resolver F → Bytes → ℕ → Option Entry
unfolding find
cache_get r key now = elim (find key r.cache) [
  | none ↦ none
  | some e ↦ if ltb e.expires now then none else some e
]

-- cachePut at the time `now`: the newest entry of a key stands first
unfoldable pub cache_put : {F : Type 0} → Resolver F → Bytes → List Record → ℕ → ℕ → ℕ → Resolver F
cache_put r key recs rcode ttl now = record r {
  cache = (key, record { records = recs; rcode = rcode; expires = now + ttl }) ∷ r.cache;
}

-- filterAnswers
unfoldable pub filter_answers : List Record → ℕ → List Record
filter_answers [] qtype = []
filter_answers (a ∷ rest) qtype =
    let out = filter_answers rest qtype in if a.rtype == qtype then a ∷ out else out

-- the loop of minTTL from the second record on
unfoldable pub min_from : ℕ → List Record → ℕ
min_from m [] = m
min_from m (r ∷ rest) = min_from (if ltb r.ttl m then r.ttl else m) rest

-- negativeTTLFrom
unfoldable pub negative_ttl : List Record → ℕ
negative_ttl [] = default_negative_ttl
negative_ttl (rr ∷ rest) =
    let below = negative_ttl rest in
    elim rr.soa [
      | none ↦ below
      | some s ↦ if rr.rtype == RrType.soa then s.minimum * second else below
    ]

-- the time that an answer stays in the cache: minTTL of its records, which are never empty there
unfoldable pub answer_ttl : List Record → Message → ℕ
unfolding min_from negative_ttl
answer_ttl [] resp = negative_ttl resp.authority
answer_ttl (r ∷ rest) resp = min_from r.ttl rest * second

-- pickResolver: the address, and the index moved on
unfoldable pub pick_resolver : {F : Type 0} → Resolver F → Option Bytes
pick_resolver r = elim (length r.cfg.resolvers) [
  | zero ↦ none
  | suc n ↦ get_elem? r.cfg.resolvers (r.next % suc n)
]

-- one more call of the outside
abbrev pub tick : {F : Type 0} → Resolver F → Resolver F
tick r = record r { calls = r.calls + 1 }

abbrev pub moved : {F : Type 0} → Resolver F → Resolver F
moved r = record r { next = r.next + 1; calls = r.calls + 1 }

-- the loop of exchangeWithRetry, with the attempts left and the last error
unfoldable pub attempt :
    {F : Type 0} → World → Bytes → ℕ → ℕ → Bytes → Resolver F → Result Error Message × Resolver F
unfolding pick_resolver valid_protocol
attempt w name qtype zero last r = (err (Error.failed last), r)
attempt w name qtype (suc left) last r = elim (pick_resolver r) [
  | none ↦ (err Error.panic, r)
  | some addr ↦ elim (valid_protocol r.cfg.protocol) [
    | false ↦ (err Error.unknown_protocol, moved r)
    | true ↦
        elim (w.exchange r.calls r.cfg.protocol addr
          (new_query (w.random r.calls % 2 ^ 16) name qtype)) [
            | ok resp ↦ (ok resp, moved r)
            | err e ↦ elim (w.context_error r.calls) [
              | some c ↦ (err (Error.stopped c), moved r)
              | none ↦ attempt w name qtype left e (moved r)
            ]
          ]
  ]
]

-- r.cfg.Retries + 1, and at least 1
abbrev pub attempts : ℤ → ℕ
attempts (ℤ.pos n) = n + 1
attempts (ℤ.negsuc n) = 1

-- exchangeWithRetry
unfoldable pub exchange_with_retry :
    {F : Type 0} → World → Bytes → ℕ → Resolver F → Result Error Message × Resolver F
exchange_with_retry w name qtype r = attempt w name qtype (attempts r.cfg.retries) [] r

-- Query behind a miss of the cache and the rate limiter
unfoldable pub store_answer :
    {F : Type 0}
    → World
    → Bytes
    → ℕ
    → Result Error Message × Resolver F
    → Result Error (List Record × ℕ) × Resolver F
unfolding filter_answers answer_ttl cache_put
store_answer w key qtype (err e, r) = (err e, r)
store_answer w key qtype (ok resp, r) =
    let recs = filter_answers resp.answers qtype in
    (
      ok (recs, resp.rcode),
      tick (cache_put r key recs resp.rcode (answer_ttl recs resp) (w.now r.calls)),
    )

-- Query
unfoldable pub query :
    {F : Type 0} → World → Bytes → ℕ → Resolver F → Result Error (List Record × ℕ) × Resolver F
unfolding cache_get exchange_with_retry store_answer
query w name qtype r = elim (cache_get r (cache_key name qtype) (w.now r.calls)) [
  | some e ↦ (ok (e.records, e.rcode), tick r)
  | none ↦ elim (w.wait r.calls) [
    | some e ↦ (err (Error.stopped e), tick r)
    | none ↦ store_answer w (cache_key name qtype) qtype (exchange_with_retry w name qtype (tick r))
  ]
]

-- the addresses of an answer; `none` is a nil IP
unfoldable pub addresses : Net → ℕ → List Record → List (Option Ip)
addresses net qtype = map λ rr. net.parse_ip (if qtype == RrType.aaaa then rr.aaaa else rr.a)

-- the loop of lookupIP, with the hops left and the names seen in lower case
unfoldable pub lookup_hops :
    {F : Type 0}
    → Net
    → World
    → Bytes
    → ℕ
    → ℕ
    → List Bytes
    → Bytes
    → Resolver F
    → Result Error (List (Option Ip)) × Resolver F
unfolding eq to_lower query addresses
lookup_hops net w name qtype zero seen current r = (err (Error.too_many_hops name), r)
lookup_hops net w name qtype (suc hops) seen current r = elim (any (eq (to_lower current)) seen) [
  | true ↦ (err (Error.cname_loop name), r)
  | false ↦
      let (answer, r') = query w current qtype r in
      elim answer [
        | err e ↦ (err e, r')
        | ok found ↦
            let (recs, rcode) = found in
            elim recs [
              | rr ∷ rest ↦ (ok (addresses net qtype (rr ∷ rest)), r')
              | [] ↦ elim (rcode == Rcode.name_error) [
                | true ↦ (ok [], r')
                | false ↦
                    let (second_answer, r'') = query w current RrType.cname r' in
                    elim second_answer [
                      | err e ↦ (err e, r'')
                      | ok aliases ↦ elim aliases.0 [
                        | [] ↦ (ok [], r'')
                        | c ∷ others ↦
                            lookup_hops net w name qtype hops (to_lower current ∷ seen) c.cname r''
                      ]
                    ]
              ]
            ]
      ]
]

-- lookupIP
unfoldable pub lookup_ip :
    {F : Type 0}
    → Net
    → World
    → Bytes
    → ℕ
    → Resolver F
    → Result Error (List (Option Ip)) × Resolver F
lookup_ip net w name qtype r = lookup_hops net w name qtype 8 [] name r
