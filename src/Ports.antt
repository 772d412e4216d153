-- ===== src/Ports.antt =====
-- internal/portscan/ports.go: port specifications. The set of ports `seen` is the list of the keys
-- that were added; its keys are collected and sorted at the end.
pub mod Sorted
mod Examples
use nett.Prelude.{
  ℕ, zero, suc, ◌+◌, ◌-◌, ◌≤◌, Bool, not, ◌||◌, Option, none, some, List, [], ◌∷◌, ltb, leb, ◌==◌,
  if◌then◌else◌, Result, ok, err, ◌>>=◌, ◌>>◌, check, length,
}
use nett.Text.{Bytes, codes, eq, trim_space, split, cut}
use nett.Text.Decimal.{ℤ, atoi}

pub data Error : Type 0 where
  not_a_number out_of_range invalid_range no_ports : Error

-- CommonPorts
abbrev pub common_ports : List ℕ
common_ports =
    21 ∷ 22 ∷ 23 ∷ 25 ∷ 53 ∷ 67 ∷ 68 ∷ 69 ∷ 80 ∷ 88 ∷ 110 ∷ 111 ∷ 123 ∷ 135 ∷ 137 ∷ 138 ∷ 139 ∷ 143
    ∷ 161 ∷ 162 ∷ 389 ∷ 443 ∷ 445 ∷ 465 ∷ 500 ∷ 512 ∷ 513 ∷ 514 ∷ 515 ∷ 587 ∷ 631 ∷ 636 ∷ 873 ∷ 993
    ∷ 995 ∷ 1025 ∷ 1080 ∷ 1194 ∷ 1433 ∷ 1434 ∷ 1521 ∷ 1723 ∷ 2049 ∷ 2181 ∷ 2375 ∷ 3000 ∷ 3128 ∷ 3268
    ∷ 3306 ∷ 3389 ∷ 3690 ∷ 4444 ∷ 4789 ∷ 5000 ∷ 5060 ∷ 5222 ∷ 5353 ∷ 5432 ∷ 5601 ∷ 5672 ∷ 5900
    ∷ 5985 ∷ 5986 ∷ 6379 ∷ 6443 ∷ 6667 ∷ 7001 ∷ 8000 ∷ 8008 ∷ 8080 ∷ 8081 ∷ 8088 ∷ 8443 ∷ 8888
    ∷ 9000 ∷ 9042 ∷ 9090 ∷ 9092 ∷ 9200 ∷ 9300 ∷ 9418 ∷ 11211 ∷ 15672 ∷ 20000 ∷ 27017 ∷ 27018 ∷ 28017
    ∷ 32768 ∷ 50000 ∷ []

-- MaxPort
abbrev pub max_port : ℕ
max_port = 65535

-- the numbers from `i` on, `n` of them
unfoldable pub count_from : ℕ → ℕ → List ℕ
count_from i zero = []
count_from i (suc n) = i ∷ count_from (i + 1) n

-- AllPorts
unfoldable pub all_ports : Unit {0} → List ℕ
all_ports _ = count_from 1 max_port

-- what `parsePort` does with the result of Atoi
unfoldable pub port_of : Option ℤ → Result Error ℕ
port_of none = err Error.not_a_number
port_of (some (ℤ.negsuc n)) = err Error.out_of_range
port_of (some (ℤ.pos n)) = if ltb n 1 || ltb max_port n then err Error.out_of_range else ok n

-- parsePort
unfoldable pub parse_port : Bytes → Result Error ℕ
parse_port s = port_of (atoi (trim_space s))

-- the loop over a range
unfoldable pub add_range : ℕ → ℕ → List ℕ → List ℕ
add_range lo zero seen = seen
add_range lo (suc n) seen = add_range (lo + 1) n (lo ∷ seen)

-- a part that is not empty
unfoldable pub parse_named : Bytes → List ℕ → Result Error (List ℕ)
parse_named part seen = elim (cut part b'-') [
  | some (lo, hi) ↦ do
    lo_n ← parse_port lo
    hi_n ← parse_port hi
    check (leb lo_n hi_n) Error.invalid_range
    ok (add_range lo_n (hi_n + 1 - lo_n) seen)
  | none ↦ do p ← parse_port part; ok (p ∷ seen)
]

-- one round of the loop over the parts
unfoldable pub parse_part : Bytes → List ℕ → Result Error (List ℕ)
parse_part part seen =
    if length (trim_space part) == 0 then ok seen else parse_named (trim_space part) seen

unfoldable pub parse_parts : List Bytes → List ℕ → Result Error (List ℕ)
parse_parts [] seen = ok seen
parse_parts (part ∷ parts) seen = do seen' ← parse_part part seen; parse_parts parts seen'

unfoldable pub insert_key : ℕ → List ℕ → List ℕ
insert_key k [] = k ∷ []
insert_key k (x ∷ xs) =
    let rest = insert_key k xs in
    if ltb k x then k ∷ (x ∷ xs) else if k == x then x ∷ xs else x ∷ rest

-- the keys of the set, each once, and sort.Ints
unfoldable pub sorted_keys : List ℕ → List ℕ
unfolding insert_key
sorted_keys [] = []
sorted_keys (k ∷ ks) = insert_key k (sorted_keys ks)

-- if len(seen) == 0, and the sorted keys
unfoldable pub finish : List ℕ → Result Error (List ℕ)
finish [] = err Error.no_ports
finish (k ∷ ks) = ok (sorted_keys (k ∷ ks))

-- ParsePorts
unfoldable pub parse_ports : Bytes → Result Error (List ℕ)
parse_ports spec =
    if length (trim_space spec) == 0
    then ok common_ports
    else if eq (trim_space spec) (codes "-") || eq (trim_space spec) (codes "*")
    then ok (all_ports tt)
    else do seen ← parse_parts (split (trim_space spec) b',') []; finish seen
