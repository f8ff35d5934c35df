-- ===== src/Metrics/Cache/Fresh.antt =====
-- What a cache answers.
use cpu_manager_go.Prelude.{
  ℕ, ◌≡◌, ℤ, ltb_ℤ, Bool, true, none, some, List, [], ◌∷◌, if◌then◌else◌, arith,
}
use cpu_manager_go.Prelude.Clock.{Instant, since}
use cpu_manager_go.Metrics.Cache.{Cache, find, store, get_cached, evict, set_cached}

module _ {K : Type 0} (eq : K → K → Bool) where
  find-store :
      {A : Type 0} (k : K) (a : A) (d : List (K × A))
      → eq k k ≡ true
      → find eq k (store eq k a d) ≡ some a
  unfolding find store
  find-store k a [] h = ground arith
  find-store k a ((j, b) ∷ d) h = ground (arith, find-store k a d h)

  module _ {V : Type 0} (blank : K) (max_size : ℕ) where
    -- A value that was set is answered as long as it is not older than the time to live that is asked
    -- for, and no longer.
    pub get-set_cached :
        (now later : Instant) (ttl : ℤ) (k : K) (v : V) (c : Cache K V)
        → eq k k ≡ true
        → get_cached eq later ttl k (set_cached eq blank max_size now k v c)
          ≡ (if ltb_ℤ ttl (since later now) then none else some v)
    unfolding get_cached set_cached
    get-set_cached now later ttl k v c h =
        let room = evict eq blank max_size now c in
        let value = find-store k v room.values h in
        let time = find-store k now room.times h in ground arith
