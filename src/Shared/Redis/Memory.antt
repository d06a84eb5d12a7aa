-- ===== src/Shared/Redis/Memory.antt =====
-- A store in memory that satisfies the laws of the server: the hypotheses can be met.
use nestjs_boilerplate.Base.{
  ℕ, ◌+◌, refl, Bool, true, false, Option, none, some, Text, text_eq, leb, if◌then◌else◌, arith,
}
use nestjs_boilerplate.Shared.Redis.{Server, Laws, holds}

pub record Contents : Type 0 where
  pub values : Text → Option Text
  pub counters : Text → ℕ
  pub ttls : Text → Option ℕ

abbrev update : {A : Type 0} → Text → A → (Text → A) → Text → A
update k a f j = if text_eq k j then a else f j

abbrev is_some : {A : Type 0} → Option A → Bool
is_some none = false
is_some (some _) = true

abbrev removed : Option Text → ℕ → ℕ
removed (some _) n = 1
removed none n = if leb 1 n then 1 else 0

abbrev erase : Text → Contents → Contents
erase k m = record {
  values = update k none m.values;
  counters = update k 0 m.counters;
  ttls = update k none m.ttls;
}

abbrev write : Text → Text → ℕ → Contents → Contents
write k v t m = record m { values = update k (some v) m.values; ttls = update k (some t) m.ttls }

abbrev pub memory : Server
memory = record {
  Store = Contents;
  get = λ k m. m.values k;
  counter = λ k m. m.counters k;
  ttl = λ k m. m.ttls k;
  set_ex = write;
  set_ex_nx = λ k v t m. if is_some (m.values k) then (false, m) else (true, write k v t m);
  del = λ k m. (removed (m.values k) (m.counters k), erase k m);
  incr = λ k m. (m.counters k + 1, record m { counters = update k (m.counters k + 1) m.counters });
  expire = λ k t m. (1, record m { ttls = update k (some t) m.ttls });
  compare_and_delete = λ k v m. if holds v (m.values k) then (1, erase k m) else (0, m);
}

-- Nothing is stored.
abbrev pub empty : Contents
empty = record { values = λ _. none; counters = λ _. 0; ttls = λ _. none }

pub memory-Laws : Laws memory
memory-Laws = record {
  get-set_ex = λ k j v t s. refl;
  counter-set_ex = λ k j v t s h. refl;
  get-set_ex_nx = λ k j v t s. ground arith;
  set_ex_nx_free = λ k v t s h. ground arith;
  set_ex_nx_held = λ k v w t s h. ground arith;
  get-del = λ k j s. refl;
  counter-del = λ k j s. refl;
  del_held = λ k v s h. ground arith;
  incr_reply = λ k s. refl;
  get-incr = λ k j s h. refl;
  counter-incr = λ k j s. refl;
  get-expire = λ k j t s h. refl;
  counter-expire = λ k j t s h. refl;
  ttl-set_ex = λ k j v t s. refl;
  ttl-incr = λ k j s. refl;
  ttl-expire = λ k j t s h. refl;
  get-compare_and_delete = λ k j v s. ground arith;
}
