-- ===== src/Metrics/Cache/Bound.antt =====
-- The size of a cache.
use mathlib.Core.Path.{subst, sym}
use cpu_manager_go.Prelude.{
  ℕ, suc, ◌≤◌, ◌<◌, ◌≡◌, ◌∙◌, refl, Bool, true, false, not, ◌&&◌, List, [], ◌∷◌, if◌then◌else◌, leb,
  ltb, length, arith, Bool-cases, inl, inr,
}
use cpu_manager_go.Prelude.Clock.{Instant}
use cpu_manager_go.Metrics.Cache.{Cache, store, drop_key, oldest, drop_entry, evict, set_cached}

module _ {K : Type 0} (eq : K → K → Bool) where
  unfoldable pub has_key : {A : Type 0} → K → List (K × A) → Bool
  has_key k [] = false
  has_key k ((j, a) ∷ d) = if eq k j then true else has_key k d

  -- The two maps have the same keys.
  pub data Together {V : Type 0} : List (K × V) → List (K × Instant) → Type 0 where
    nil : Together [] []
    cons :
        {k : K} {v : V} {t : Instant} {values : List (K × V)} {times : List (K × Instant)}
        → Together values times
        → Together ((k, v) ∷ values) ((k, t) ∷ times)

  -- Every time lies before the instant, and no key is blank.
  unfoldable pub Past : K → Instant → List (K × Instant) → Type 0
  Past blank now [] = Unit {0}
  Past blank now ((k, t) ∷ times) = (t < now) × (eq k blank ≡ false) × Past blank now times

  Together-store :
      {V : Type 0} (k : K) (v : V) (t : Instant) {values : List (K × V)}
      {times : List (K × Instant)}
      → Together values times
      → Together (store eq k v values) (store eq k t times)
  unfolding store
  Together-store k v t nil = cons nil
  Together-store k v t (cons {k = j} h) = elim (Bool-cases (eq k j)) [
    | inl e ↦ rw e (cons h)
    | inr e ↦ rw e (cons (Together-store k v t h))
  ]

  Together-drop :
      {V : Type 0} (k : K) {values : List (K × V)} {times : List (K × Instant)}
      → Together values times
      → Together (drop_key eq k values) (drop_key eq k times)
  unfolding drop_key
  Together-drop k nil = nil
  Together-drop k (cons {k = j} h) = elim (Bool-cases (eq k j)) [
    | inl e ↦ rw e (Together-drop k h)
    | inr e ↦ rw e (cons (Together-drop k h))
  ]

  has_key-Together :
      {V : Type 0} (k : K) {values : List (K × V)} {times : List (K × Instant)}
      → Together values times
      → has_key k values ≡ has_key k times
  unfolding has_key
  has_key-Together k nil = refl
  has_key-Together k (cons {k = j} h) = ground (arith, has_key-Together k h)

  length-store :
      {A : Type 0} (k : K) (a : A) (d : List (K × A)) → length (store eq k a d) ≤ suc (length d)
  unfolding store
  length-store k a [] = omega arith
  length-store k a ((j, b) ∷ d) = ground (arith, length-store k a d)

  length-drop_le : {A : Type 0} (k : K) (d : List (K × A)) → length (drop_key eq k d) ≤ length d
  unfolding drop_key
  length-drop_le k [] = omega arith
  length-drop_le k ((j, b) ∷ d) = ground (arith, length-drop_le k d)

  length-drop_key :
      {A : Type 0} (k : K) (d : List (K × A))
      → has_key k d ≡ true
      → length (drop_key eq k d) < length d
  unfolding drop_key has_key
  length-drop_key k [] h = absurd (ground arith)
  length-drop_key k ((j, b) ∷ d) h = ground (arith, length-drop_key k d, length-drop_le k d)

  module _ (eq_refl : (k : K) → eq k k ≡ true) (eq_sound : (j k : K) → eq j k ≡ true → j ≡ k) where
    -- The loop keeps what holds of the key it starts with and of all keys.
    oldest-keeps :
        (P : K → Type 0) (best : K) (best_time : Instant) (times : List (K × Instant))
        → P best
        → ((k : K) → has_key k times ≡ true → P k)
        → P (oldest eq best best_time times)
    unfolding oldest has_key
    oldest-keeps P best best_time [] h s = h
    oldest-keeps P best best_time ((k, t) ∷ times) h s =
        let head : P k = s k (rw eq_refl refl) in
        let tail : (j : K) → has_key j times ≡ true → P j = λ j e. s j (ground arith) in
        elim (Bool-cases (ltb t best_time)) [
          | inl e ↦ rw e (oldest-keeps P k t times head tail)
          | inr e ↦ rw e (oldest-keeps P best best_time times h tail)
        ]

    Past-not_blank :
        (blank : K) (now : Instant) (times : List (K × Instant)) (k : K)
        → Past blank now times
        → has_key k times ≡ true
        → eq k blank ≡ false
    unfolding Past has_key
    Past-not_blank blank now [] k p h = absurd (ground arith)
    Past-not_blank blank now ((j, t) ∷ times) k p h = elim (Bool-cases (eq k j)) [
      | inl e ↦ subst (λ x. eq x blank ≡ false) (sym (eq_sound k j e)) p.1
      | inr e ↦ Past-not_blank blank now times k p.2 (ground arith)
    ]

    -- Of a map that is not empty, whose times lie in the past, the loop finds a key.
    oldest-has_key :
        (blank : K) (now : Instant) (times : List (K × Instant))
        → 0 < length times
        → Past blank now times
        → (has_key (oldest eq blank now times) times ≡ true)
          × (eq (oldest eq blank now times) blank ≡ false)
    unfolding oldest
    oldest-has_key blank now [] l p = absurd (omega arith)
    oldest-has_key blank now ((k, t) ∷ times) l p =
        let all = (k, t) ∷ times in
        let Found : K → Type 0 = λ j. (has_key j all ≡ true) × (eq j blank ≡ false) in
        let here : has_key k all ≡ true = unfold has_key in rw eq_refl refl in
        let each : (j : K) → has_key j all ≡ true → Found j =
          λ j e. (e, Past-not_blank blank now all j p e) in
        let rest : (j : K) → has_key j times ≡ true → Found j =
          λ j e. each j (unfold has_key in ground arith) in
        let less : ltb t now ≡ true = unfold Past in ground arith in
        subst (λ b. Found (if b then oldest eq k t times else oldest eq blank now times)) (sym less)
          (oldest-keeps Found k t times (each k here) rest)

    Past-later :
        (blank : K) (now later : Instant) (times : List (K × Instant))
        → now ≤ later
        → Past blank now times
        → Past blank later times
    unfolding Past
    Past-later blank now later [] l p = tt
    Past-later blank now later ((k, t) ∷ times) l p =
        (omega arith, p.1, Past-later blank now later times l p.2)

    Past-store :
        (blank k : K) (now later : Instant) (times : List (K × Instant))
        → now < later
        → eq k blank ≡ false
        → Past blank later times
        → Past blank later (store eq k now times)
    unfolding Past store
    Past-store blank k now later [] l b p = (l, b, tt)
    Past-store blank k now later ((j, t) ∷ times) l b p = elim (Bool-cases (eq k j)) [
      | inl e ↦ rw e (l, b, p.2)
      | inr e ↦ rw e (p.0, p.1, Past-store blank k now later times l b p.2)
    ]

    Past-drop :
        (blank k : K) (now : Instant) (times : List (K × Instant))
        → Past blank now times
        → Past blank now (drop_key eq k times)
    unfolding Past drop_key
    Past-drop blank k now [] p = tt
    Past-drop blank k now ((j, t) ∷ times) p = elim (Bool-cases (eq k j)) [
      | inl e ↦ rw e (Past-drop blank k now times p.2)
      | inr e ↦ rw e (p.0, p.1, Past-drop blank k now times p.2)
    ]

    length-Together :
        {V : Type 0} {values : List (K × V)} {times : List (K × Instant)}
        → Together values times
        → length values ≡ length times
    length-Together nil = refl
    length-Together (cons h) = ground (arith, length-Together h)

    module _ {V : Type 0} (blank : K) (max_size : ℕ) where
      -- What holds of a cache before an instant.
      pub record IsBounded (now : Instant) (c : Cache K V) : Type 0 where
        pub together : Together c.values c.times
        pub past : Past blank now c.times
        pub size : length c.values ≤ max_size

      abbrev Room : Instant → Cache K V → Type 0
      Room now c = IsBounded now c × (length c.values < max_size)

      drop-Room :
          (now : Instant) (k : K) (c : Cache K V)
          → has_key k c.times ≡ true
          → IsBounded now c
          → Room now (drop_entry eq k c)
      drop-Room now k c h b =
          let present : has_key k c.values ≡ true = has_key-Together k b.together ∙ h in
          let shorter = length-drop_key k c.values present in
          let size = b.size in
          (
            record {
              together = Together-drop k b.together;
              past = Past-drop blank k now c.times b.past;
              size = omega arith;
            },
            omega arith,
          )

      evict-Room :
          (now : Instant) (c : Cache K V)
          → 0 < max_size
          → IsBounded now c
          → Room now (evict eq blank max_size now c)
      unfolding evict
      evict-Room now c m b =
          let key = oldest eq blank now c.times in
          let choice : Bool → Cache K V = λ t. if t then drop_entry eq key c else c in
          elim (Bool-cases (leb max_size (length c.values))) [
            | inl full ↦
                let same_size = length-Together b.together in
                let some_key : 0 < length c.times = ground arith in
                let found = oldest-has_key blank now c.times some_key b.past in
                let test : (leb max_size (length c.values) && not (eq key blank)) ≡ true =
                  ground arith in
                subst (λ t. Room now (choice t)) (sym test) (drop-Room now key c found.0 b)
            | inr free ↦
                let test : (leb max_size (length c.values) && not (eq key blank)) ≡ false =
                  ground arith in
                let size : length c.values < max_size = ground arith in
                subst (λ t. Room now (choice t)) (sym test) (b, size)
          ]

      -- If the two maps have the same keys, no key is blank, all times lie before the call, and the
      -- cache does not exceed its largest size, which is not 0, then this is still so after an entry is
      -- set, at every later instant.
      pub set_cached-IsBounded :
          (now later : Instant) (k : K) (v : V) (c : Cache K V)
          → 0 < max_size
          → now < later
          → eq k blank ≡ false
          → IsBounded now c
          → IsBounded later (set_cached eq blank max_size now k v c)
      unfolding set_cached
      set_cached-IsBounded now later k v c m l n b =
          let room = evict eq blank max_size now c in
          let (bounded, free) = evict-Room now c m b in
          let grown = length-store k v room.values in
          record {
            together = Together-store k v now bounded.together;
            past =
                Past-store blank k now later room.times l n
                  (Past-later blank now later room.times (omega arith) bounded.past);
            size = omega arith;
          }
