-- ===== src/State/IoRemediation/Starvation.antt =====
-- What `stageIORemediation` achieves: `CheckAndRemediate` with the `Cleanup` of a day behind it.
use cpu_manager_go.Prelude.{
  ℕ, ◌*◌, ◌≡◌, refl, ℤ, pos, ltb_ℤ, Bool, true, false, not, ◌==◌, ◌||◌, List, [], ◌∷◌, ◌++◌, arith,
  Option-cases, Bool-cases, inl, inr,
}
use cpu_manager_go.Prelude.Clock.{Instant, nano, since, since_self, seconds}
use cpu_manager_go.Prelude.Dict.{Dict, lookup, put}
use cpu_manager_go.Prelude.Floats.{Floats}
use cpu_manager_go.Config.Defs.{Config}
use cpu_manager_go.State.IoRemediation.{
  IoBoostState, or_new, IoRemediation, Answers, Round, apply_boost, revert_boost, note_start,
  is_due, remediate, remediate_user, remediate_users, check_and_remediate, cleanup_states, cleanup,
}

abbrev pub day : ℤ
day = pos (24 * 3600 * nano)

-- One stage: the configuration, the clock of the check and that of the clean-up, the answers and the
-- limited users.
pub record Check (F : Type 0) : Type 0 where
  pub cfg : Config F
  pub now : Instant
  pub later : Instant
  pub answers : Answers F
  pub limited_users : List ℕ

module _ (fl : Floats) where
  -- The users for which a sequence of stages calls `RemoveIOLimit`.
  unfoldable pub boosted_users : List (Check fl.F) → IoRemediation → List ℕ
  boosted_users [] r = []
  boosted_users (c ∷ cs) r =
      let (next, removed) = check_and_remediate fl c.cfg c.now c.answers c.limited_users r in
      removed ++ boosted_users cs (cleanup day c.later next)

  -- The threshold is positive, and the clock stands more than a day after the zero time.
  pub data AllLate : List (Check fl.F) → Type 0 where
    nil : AllLate []
    cons :
        {c : Check fl.F} {cs : List (Check fl.F)}
        → ltb_ℤ (pos 0) (seconds c.cfg.io_starvation_threshold) ≡ true
        → ltb_ℤ day (since c.later 0) ≡ true
        → AllLate cs
        → AllLate (c ∷ cs)

-- A state that was made at this check.
abbrev IsFresh : Instant → IoBoostState → Type 0
IsFresh now s =
    (s.is_active ≡ false)
    × (s.last_boost_time ≡ 0)
    × ((s.starvation_start == 0 || s.starvation_start == now) ≡ true)

unfoldable AllFresh : Instant → Dict IoBoostState → Type 0
AllFresh now [] = Unit {0}
AllFresh now ((uid, s) ∷ states) = IsFresh now s × AllFresh now states

or_new-IsFresh :
    (now : Instant) (uid : ℕ) (states : Dict IoBoostState)
    → AllFresh now states
    → IsFresh now (or_new (lookup uid states))
unfolding AllFresh
or_new-IsFresh now uid [] h = (refl, refl, refl)
or_new-IsFresh now uid ((j, t) ∷ states) h = elim (Bool-cases (uid == j)) [
  | inl e ↦ rw e h.0
  | inr e ↦ rw e (or_new-IsFresh now uid states h.1)
]

put-AllFresh :
    (now : Instant) (uid : ℕ) (s : IoBoostState) (states : Dict IoBoostState)
    → IsFresh now s
    → AllFresh now states
    → AllFresh now (put uid s states)
unfolding AllFresh
put-AllFresh now uid s [] f h = (f, tt)
put-AllFresh now uid s ((j, t) ∷ states) f h = elim (Bool-cases (uid == j)) [
  | inl e ↦ rw e (f, h.1)
  | inr e ↦ rw e (h.0, put-AllFresh now uid s states f h.1)
]

cleanup_states-empty :
    (max_age : ℤ) (now later : Instant) (states : Dict IoBoostState)
    → ltb_ℤ max_age (since later 0) ≡ true
    → AllFresh now states
    → cleanup_states max_age later states ≡ []
unfolding cleanup_states AllFresh
cleanup_states-empty max_age now later [] l h = refl
cleanup_states-empty max_age now later ((uid, s) ∷ states) l h =
    let rest = cleanup_states-empty max_age now later states l h.1 in
    let dead : s.is_active ≡ false = h.0.0 in
    let late : ltb_ℤ max_age (since later s.last_boost_time) ≡ true = rw h.0.1 l in
    rw (dead, late) rest

module _ (fl : Floats) (cfg : Config fl.F) (now : Instant)
    (positive : ltb_ℤ (pos 0) (seconds cfg.io_starvation_threshold) ≡ true) where
  remediate-IsFresh :
      (psi : fl.F) (ok : Bool) (s : IoBoostState)
      → IsFresh now s
      → IsFresh now (remediate fl cfg now psi ok s).0 × ((remediate fl cfg now psi ok s).1 ≡ false)
  unfolding remediate is_due note_start apply_boost revert_boost
  remediate-IsFresh psi ok s f = ground (arith, since_self now)

  abbrev IsQuiet : Round → Type 0
  IsQuiet r = AllFresh now r.states × (r.removed ≡ [])

  remediate_user-IsQuiet :
      (answers : Answers fl.F) (uid : ℕ) (r : Round)
      → IsQuiet r
      → IsQuiet (remediate_user fl cfg now answers uid r)
  unfolding remediate_user
  remediate_user-IsQuiet answers uid r q =
      let s = or_new (lookup uid r.states) in
      let f = or_new-IsFresh now uid r.states q.0 in
      elim (Option-cases (answers.pressure uid)) [
        | inl e ↦ rw (remediate_user, e) (put-AllFresh now uid s r.states f q.0, q.1)
        | inr (psi, e) ↦
            let k = remediate-IsFresh psi (answers.removes uid) s f in
            rw (remediate_user, e, k.1) (put-AllFresh now uid _ r.states k.0 q.0, q.1)
      ]

  remediate_users-IsQuiet :
      (answers : Answers fl.F) (uids : List ℕ) (r : Round)
      → IsQuiet r
      → IsQuiet (remediate_users fl cfg now answers uids r)
  unfolding remediate_users
  remediate_users-IsQuiet answers [] r q = q
  remediate_users-IsQuiet answers (uid ∷ uids) r q =
      remediate_users-IsQuiet answers uids _ (remediate_user-IsQuiet answers uid r q)

  check_fresh :
      (answers : Answers fl.F) (uids : List ℕ) (r : IoRemediation)
      → r.boost_states ≡ []
      → let o = check_and_remediate fl cfg now answers uids r in
        AllFresh now o.0.boost_states × (o.1 ≡ [])
  unfolding check_and_remediate
  check_fresh answers uids r e =
      let empty : AllFresh now r.boost_states = rw e (unfold AllFresh in tt) in
      let start : Round = record { states = r.boost_states; removed = [] } in
      let q = remediate_users-IsQuiet answers uids start (empty, refl) in
      elim (Bool-cases (not cfg.io_remediation_enabled)) [
        | inl off ↦ rw off (empty, refl)
        | inr on ↦
            elim (Bool-cases
              (ltb_ℤ (since now r.last_check) (seconds cfg.io_starvation_check_interval))) [
                | inl soon ↦ rw (on, soon) (empty, refl)
                | inr due ↦ rw (on, due) q
              ]
      ]

module _ (fl : Floats) where
  -- Where the starvation threshold is positive and the clock stands more than a day after the zero time
  -- of Go, no sequence of stages of the control cycle that begins without boost states, however long the
  -- users starve for IO and whatever the pressures and the answers are, ever calls `RemoveIOLimit`: the
  -- clean-up behind each check deletes the state in which the start of the starvation was noted.
  pub boosted_users-none :
      (cs : List (Check fl.F)) (r : IoRemediation)
      → r.boost_states ≡ []
      → AllLate fl cs
      → boosted_users fl cs r ≡ []
  unfolding boosted_users cleanup
  boosted_users-none [] r e nil = refl
  boosted_users-none (c ∷ cs) r e (cons positive late rest) =
      let o = check_and_remediate fl c.cfg c.now c.answers c.limited_users r in
      let f = check_fresh fl c.cfg c.now positive c.answers c.limited_users r e in
      let next = cleanup day c.later o.0 in
      let gone : next.boost_states ≡ [] =
        cleanup_states-empty day c.now c.later o.0.boost_states late f.0 in
      let later = boosted_users-none cs next gone rest in rw f.1 later
