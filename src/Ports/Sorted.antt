-- ===== src/Ports/Sorted.antt =====
-- Whatever the specification, the ports of a result are in range, in increasing order, each once.
use nett.Prelude.{
  ℕ, zero, suc, ◌+◌, ◌-◌, ◌≤◌, ◌<◌, ◌≢◌, inl, inr, Option, none, some, List, [], ◌∷◌, ltb, ◌==◌,
  ◌||◌, arith, length, All, Ensures, Ensures-pure, Ensures-err, Ensures-cases, Ensures-check,
  Ensures-bind, Ensures-if, Option-cases, leb→le,
}
use nett.Text.{Bytes, codes, eq, trim_space, split, cut}
use nett.Text.Decimal.{ℤ, atoi}
use nett.Ports.{
  Error, common_ports, max_port, count_from, all_ports, port_of, parse_port, add_range, parse_named,
  parse_part, parse_parts, insert_key, sorted_keys, finish, parse_ports,
}

abbrev pub IsPort : ℕ → Type 0
IsPort p = (1 ≤ p) × (p ≤ max_port)

-- each item is above `b`, and above the one before it
abbrev pub Above : ℕ → List ℕ → Type 0
Above b [] = Unit
Above b (x ∷ xs) = (b < x) × Above x xs

pub record IsPortList (ps : List ℕ) : Type 0 where
  pub increasing : Above 0 ps
  pub ports : All IsPort ps
  pub some_port : ps ≢ []

abbrev pub AnyError : Error → Type 0
AnyError _ = Unit {0}

insert_key-Above : (b k : ℕ) (xs : List ℕ) → b < k → Above b xs → Above b (insert_key k xs)
unfolding insert_key
insert_key-Above b k [] h v = (h, tt)
insert_key-Above b k (x ∷ xs) h v = ground (arith, insert_key-Above x k xs)

insert_key-All : (k : ℕ) (xs : List ℕ) → IsPort k → All IsPort xs → All IsPort (insert_key k xs)
unfolding insert_key
insert_key-All k [] h v = (h, tt)
insert_key-All k (x ∷ xs) h v = ground (arith, insert_key-All k xs)

insert_key-ne-nil : (k : ℕ) (xs : List ℕ) → insert_key k xs ≢ []
unfolding insert_key
insert_key-ne-nil k [] h = cc
insert_key-ne-nil k (x ∷ xs) h = ground arith

sorted_keys-Above :
    (ks : List ℕ) → All IsPort ks → Above 0 (sorted_keys ks) × All IsPort (sorted_keys ks)
unfolding sorted_keys
sorted_keys-Above [] v = (tt, tt)
sorted_keys-Above (k ∷ ks) v =
    let (a, p) = sorted_keys-Above ks v.1 in
    (insert_key-Above 0 k (sorted_keys ks) (omega arith) a, insert_key-All k (sorted_keys ks) v.0 p)

port_of-IsPort : (o : Option ℤ) → Ensures AnyError IsPort (port_of o)
unfolding port_of
port_of-IsPort none = Ensures-err tt
port_of-IsPort (some (ℤ.negsuc n)) = Ensures-err tt
port_of-IsPort (some (ℤ.pos n)) =
    Ensures-if (ltb n 1 || ltb max_port n) _ _ (λ _. Ensures-err tt)
      λ e. Ensures-pure (ground arith, ground arith)

parse_port-IsPort : (s : Bytes) → Ensures AnyError IsPort (parse_port s)
unfolding parse_port
parse_port-IsPort s = port_of-IsPort (atoi (trim_space s))

add_range-All :
    (lo n : ℕ) (seen : List ℕ)
    → 1 ≤ lo
    → lo + n ≤ max_port + 1
    → All IsPort seen
    → All IsPort (add_range lo n seen)
unfolding add_range
add_range-All lo zero seen a b v = v
add_range-All lo (suc n) seen a b v =
    add_range-All (lo + 1) n (lo ∷ seen) (omega arith) (omega arith) ((a, omega arith), v)

parse_named-All :
    (part : Bytes) (seen : List ℕ)
    → All IsPort seen
    → Ensures AnyError (All IsPort) (parse_named part seen)
unfolding parse_named
parse_named-All part seen v = elim (Option-cases (cut part b'-')) [
  | inl e ↦
      rw (e, parse_named) (Ensures-bind _ _ (parse_port-IsPort part) λ p h. Ensures-pure (h, v))
  | inr ((lo, hi), e) ↦
      rw (e, parse_named)
        (Ensures-bind _ _ (parse_port-IsPort lo) λ a ha.
          Ensures-bind _ _ (parse_port-IsPort hi) λ b hb. Ensures-check _ _ _ tt λ t.
            Ensures-pure (add_range-All a (b + 1 - a) seen ha.0 (omega (arith, leb→le a b t)) v))
]

parse_parts-All :
    (parts : List Bytes) (seen : List ℕ)
    → All IsPort seen
    → Ensures AnyError (All IsPort) (parse_parts parts seen)
unfolding parse_parts parse_part
parse_parts-All [] seen v = Ensures-pure v
parse_parts-All (part ∷ parts) seen v =
    Ensures-bind _ _
      (Ensures-cases (length (trim_space part) == 0) (Ensures-pure v)
        (parse_named-All (trim_space part) seen v))
      λ seen' v'. parse_parts-All parts seen' v'

finish-IsPortList : (seen : List ℕ) → All IsPort seen → Ensures AnyError IsPortList (finish seen)
unfolding finish sorted_keys
finish-IsPortList [] v = Ensures-err tt
finish-IsPortList (k ∷ ks) v =
    let (a, p) = sorted_keys-Above (k ∷ ks) v in
    Ensures-pure
      (record { increasing = a; ports = p; some_port = insert_key-ne-nil k (sorted_keys ks) })

count_from-Above : (i n b : ℕ) → b < i → Above b (count_from i n)
unfolding count_from
count_from-Above i zero b h = tt
count_from-Above i (suc n) b h = (h, count_from-Above (i + 1) n i (omega arith))

count_from-All : (i n : ℕ) → 1 ≤ i → i + n ≤ max_port + 1 → All IsPort (count_from i n)
unfolding count_from
count_from-All i zero a b = tt
count_from-All i (suc n) a b =
    ((a, omega arith), count_from-All (i + 1) n (omega arith) (omega arith))

count_from-ne-nil : (i n : ℕ) → 0 < n → count_from i n ≢ []
unfolding count_from
count_from-ne-nil i zero h = absurd (omega arith)
count_from-ne-nil i (suc n) h = λ e. cc

all_ports-IsPortList : IsPortList (all_ports tt)
unfolding all_ports
all_ports-IsPortList = record {
  increasing = count_from-Above 1 max_port 0 (omega arith);
  ports = count_from-All 1 max_port (omega arith) (omega arith);
  some_port = count_from-ne-nil 1 max_port (omega arith);
}

common_ports-IsPortList : IsPortList common_ports
common_ports-IsPortList = record {
  increasing = omega arith;
  ports = omega arith;
  some_port = λ e. cc;
}

-- Every specification that `ParsePorts` accepts, the empty one and those for all ports included,
-- gives a list that is not empty, of port numbers from 1 to 65535, in strictly increasing order.
pub parse_ports-IsPortList : (spec : Bytes) → Ensures AnyError IsPortList (parse_ports spec)
unfolding parse_ports
parse_ports-IsPortList spec =
    Ensures-cases (length (trim_space spec) == 0) (Ensures-pure common_ports-IsPortList) (
      Ensures-cases (eq (trim_space spec) (codes "-") || eq (trim_space spec) (codes "*"))
        (Ensures-pure all_ports-IsPortList)
        (Ensures-bind _ _ (parse_parts-All (split (trim_space spec) b',') [] tt) finish-IsPortList))
