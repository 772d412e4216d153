-- ===== src/Store/Examples/Instance.antt =====
-- A database in memory, with the documented laws.
use nett.Prelude.{
  ℕ, Bool, true, ◌&&◌, ◌≡◌, ◌≢◌, ◌↔◌, refl, sym, ap, none, some, Option, [], ◌∷◌, err, ltb, zero,
  suc, and_true,
}
use nett.Text.{Bytes, codes, eq}
use nett.Text.Affixes.{eq_iff}
use nett.Model.Values.{Object, Value, IsObject, lookup}
use nett.Store.Tables.{Table, Log}
use nett.Store.Rows.{Stored, Database, Texts, IsTexts}
use nett.Store.Examples.Joins.{digits}

some-injective : {A : Type 0} {a b : A} → some a ≡ some b → a ≡ b
some-injective h = cc

unfoldable pub same_pair : Bytes × Bytes → Bytes × Bytes → Bool
unfolding eq
same_pair (a, b) (c, d) = eq a c && eq b d

pub same_pair_iff : (k j : Bytes × Bytes) → (same_pair k j ≡ true) ↔ (k ≡ j)
unfolding same_pair
same_pair_iff (a, b) (c, d) = (
  λ h. let (p, q) = and_true (eq a c) (eq b d) h in rw ((eq_iff a c).0 p, (eq_iff b d).0 q),
  λ h. rw (
    (eq_iff a c).1 (ap (λ (k : Bytes × Bytes). k.0) h),
    (eq_iff b d).1 (ap (λ (k : Bytes × Bytes). k.1) h),
  ),
)

-- a table that is not there
abbrev pub missing : {T Key Row : Type 0} → Table T Key Row
missing = record {
  select_row = λ s k. err (codes "no such table");
  upsert_row = λ f k r s. err (codes "no such table");
  insert_row = λ k r s. err (codes "no such table");
  update_row = λ f k s. err (codes "no such table");
  select_rows = λ p o s. err (codes "no such table");
}

abbrev pub missing_log : {T Row : Type 0} → Log T Row
missing_log = record {
  append_row = λ r s. err (codes "no such table");
  select_log = λ p o s. err (codes "no such table");
}

-- objects with at most one entry, under a key of one byte
abbrev write : Object ℕ → Option Bytes
write [] = some (0 ∷ [])
write ((c ∷ [], Value.items xs) ∷ []) = some (1 ∷ c ∷ xs)
write ((c ∷ [], Value.scalar x) ∷ []) = some (2 ∷ c ∷ x ∷ [])
write _ = none

abbrev read : Bytes → Option (Object ℕ)
read (zero ∷ s) = some []
read (suc zero ∷ c ∷ xs) = some ((c ∷ [], Value.items xs) ∷ [])
read (suc (suc n) ∷ c ∷ x ∷ []) = some ((c ∷ [], Value.scalar x) ∷ [])
read _ = none

abbrev read_number : Bytes → Option ℕ
read_number (t ∷ []) = some t
read_number _ = none

-- a time is one number
abbrev pub texts : Texts ℕ
texts = record {
  print_time = λ t. t ∷ [];
  read_time = read_number;
  marshal = write;
  unmarshal = read;
}

write_back :
    (o : Object ℕ) {s : Bytes}
    → write o ≡ some s
    → (s ≢ [])
      × ((p : Object ℕ) × (read s ≡ some p) × IsObject p × ((k : Bytes) → lookup k p ≡ lookup k o))
unfolding lookup
write_back [] h = rw (sym (some-injective h)) (λ e. cc e, ([], refl, tt, λ k. refl))
write_back ((c ∷ [], Value.items xs) ∷ []) h =
    rw (sym (some-injective h))
      (λ e. cc e, ((c ∷ [], Value.items xs) ∷ [], refl, (refl, tt), λ k. refl))
write_back ((c ∷ [], Value.scalar x) ∷ []) h =
    rw (sym (some-injective h))
      (λ e. cc e, ((c ∷ [], Value.scalar x) ∷ [], refl, (refl, tt), λ k. refl))
write_back (([], Value.items xs) ∷ []) h = cc h
write_back (([], Value.scalar x) ∷ []) h = cc h
write_back ((c ∷ (d ∷ s), Value.items xs) ∷ []) h = cc h
write_back ((c ∷ (d ∷ s), Value.scalar x) ∷ []) h = cc h
write_back (([], Value.items xs) ∷ (e ∷ o)) h = cc h
write_back (([], Value.scalar x) ∷ (e ∷ o)) h = cc h
write_back ((c ∷ [], Value.items xs) ∷ (e ∷ o)) h = cc h
write_back ((c ∷ [], Value.scalar x) ∷ (e ∷ o)) h = cc h
write_back ((c ∷ (d ∷ s), Value.items xs) ∷ (e ∷ o)) h = cc h
write_back ((c ∷ (d ∷ s), Value.scalar x) ∷ (e ∷ o)) h = cc h

pub texts-IsTexts : IsTexts texts
texts-IsTexts = record {
  time_back = λ t h. refl;
  time_text = λ t h e. cc e;
  object_text = λ o e. (write_back o e).0;
  object_back = λ o e. (write_back o e).1;
}

-- a hash that tells all texts apart
abbrev pub hash : Bytes → Bytes
hash s = s

module _ {T : Type 0} where
  abbrev pub no_tables : Database ℕ ℕ T
  no_tables = record {
    hash = hash;
    greater = λ a b. ltb b a;
    keys = digits;
    texts = texts;
    projects = missing;
    assets = missing;
    edges = missing;
    provenance = missing_log;
    events = missing;
    runs = missing;
  }

  abbrev pub all_of : T → Stored T
  all_of t = record { projects = t; assets = t; edges = t; provenance = t; events = t; runs = t }
