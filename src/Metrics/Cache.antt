-- ===== src/Metrics/Cache.antt =====
-- metrics/collector.go: the caches with timestamps, which are the cache of metrics (`getFromCache`,
-- `setInCache`) and the cache of user names (`getCachedUsername`, `cacheUsername`). They differ in
-- their keys, whose test is `eq`, and in the key `blank` that stands for no key: "" and 0. A cache is
-- two maps; each is a list, in the order of a `range` loop.
pub mod Bound
pub mod Fresh
use cpu_manager_go.Prelude.{
  ℕ, zero, suc, ◌+◌, ℤ, pos, ltb_ℤ, Bool, true, false, not, ◌&&◌, Option, none, some, List, [], ◌∷◌,
  if◌then◌else◌, leb, ltb, length,
}
use cpu_manager_go.Prelude.Clock.{Instant, since}

pub record Cache (K V : Type 0) : Type 0 where
  pub values : List (K × V)
  pub times : List (K × Instant)

-- The value and the age of an entry.
abbrev pub if_young : {V : Type 0} → Instant → ℤ → V → Option Instant → Option V
if_young now ttl v none = none
if_young now ttl v (some t) = if ltb_ℤ ttl (since now t) then none else some v

abbrev pub if_stored : {V : Type 0} → Instant → ℤ → Option V → Option Instant → Option V
if_stored now ttl none t = none
if_stored now ttl (some v) t = if_young now ttl v t

module _ {K : Type 0} (eq : K → K → Bool) where
  unfoldable pub find : {A : Type 0} → K → List (K × A) → Option A
  find k [] = none
  find k ((j, a) ∷ d) = if eq k j then some a else find k d

  -- `d[k] = a`
  unfoldable pub store : {A : Type 0} → K → A → List (K × A) → List (K × A)
  store k a [] = (k, a) ∷ []
  store k a ((j, b) ∷ d) = let rest = store k a d in if eq k j then (k, a) ∷ d else (j, b) ∷ rest

  -- `delete(d, k)`
  unfoldable pub drop_key : {A : Type 0} → K → List (K × A) → List (K × A)
  drop_key k [] = []
  drop_key k ((j, b) ∷ d) = let rest = drop_key k d in if eq k j then rest else (j, b) ∷ rest

  -- `getFromCache` and `getCachedUsername`
  unfoldable pub get_cached : {V : Type 0} → Instant → ℤ → K → Cache K V → Option V
  get_cached now ttl k c = if_stored now ttl (find k c.values) (find k c.times)

  -- The loop for the oldest entry, from the best key so far and its time.
  unfoldable pub oldest : K → Instant → List (K × Instant) → K
  oldest best best_time [] = best
  oldest best best_time ((k, t) ∷ times) =
      if ltb t best_time then oldest k t times else oldest best best_time times

  abbrev pub drop_entry : {V : Type 0} → K → Cache K V → Cache K V
  drop_entry k c = record { values = drop_key k c.values; times = drop_key k c.times }

  -- The loop of `cleanupCache` over the entries of the timestamps.
  unfoldable pub expire : {V : Type 0} → Instant → ℤ → List (K × Instant) → Cache K V → Cache K V
  expire now limit [] c = c
  expire now limit ((k, t) ∷ times) c =
      expire now limit times (if ltb_ℤ limit (since now t) then drop_entry k c else c)

  unfoldable pub cleanup_cache : {V : Type 0} → Instant → ℤ → Cache K V → Cache K V
  cleanup_cache now limit c = expire now limit c.times c

  module _ {V : Type 0} (blank : K) (max_size : ℕ) where
    -- A full cache loses its oldest entry.
    unfoldable pub evict : Instant → Cache K V → Cache K V
    evict now c =
        let key = oldest blank now c.times in
        if leb max_size (length c.values) && not (eq key blank) then drop_entry key c else c

    -- `setInCache` and `cacheUsername`
    unfoldable pub set_cached : Instant → K → V → Cache K V → Cache K V
    set_cached now k v c =
        let room = evict now c in
        record { values = store k v room.values; times = store k now room.times }
