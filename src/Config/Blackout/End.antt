-- ===== src/Config/Blackout/End.antt =====
-- The end of the current blackout.
use cpu_manager_go.Prelude.{
  ℕ, ◌≡◌, refl, ℤ, pos, ◌≤ℤ◌, ◌<ℤ◌, true, false, Bool, Option, none, some, List, [], ◌∷◌, arith,
  any, Bool-cases, inl, inr,
}
use cpu_manager_go.Config.Defs.{Timeframe, Config}
use cpu_manager_go.Config.Blackout.{covers, is_in_blackout, first_end, get_next_blackout_end}
use cpu_manager_go.Config.Blackout.Bounds.{AllTimeframes}

-- The end lies after the hour, within the day.
pub IsEnd : ℕ → Option ℤ → Type 0
IsEnd hour none = Unit {0}
IsEnd hour (some last) = (pos hour <ℤ last) × (last ≤ℤ pos 23)

abbrev pub is_some : {A : Type 0} → Option A → Bool
is_some none = false
is_some (some a) = true

first_end-IsEnd :
    (day hour : ℕ) (ts : List Timeframe) → AllTimeframes ts → IsEnd hour (first_end day hour ts)
unfolding first_end covers IsEnd AllTimeframes
first_end-IsEnd day hour [] h = tt
first_end-IsEnd day hour (t ∷ ts) h = elim (Bool-cases (covers day hour t)) [
  | inl c ↦ (let bound = h.0.up_to_23 in ground arith)
  | inr c ↦ (let rest = first_end-IsEnd day hour ts h.1 in ground arith)
]

first_end-is_some :
    (day hour : ℕ) (ts : List Timeframe)
    → is_some (first_end day hour ts) ≡ any (covers day hour) ts
unfolding first_end
first_end-is_some day hour [] = refl
first_end-is_some day hour (t ∷ ts) = ground (arith, first_end-is_some day hour ts)

-- On timeframes as `ParseTimeframe` makes them, `GetNextBlackoutEnd` gives an end exactly in a
-- blackout, and the end lies after the current hour, at 23 at the latest.
pub get_next_blackout_end-IsEnd :
    {F : Type 0} (cfg : Config F) (day hour : ℕ)
    → AllTimeframes cfg.blackout_timeframes
    → (is_some (get_next_blackout_end cfg day hour) ≡ is_in_blackout cfg day hour)
      × IsEnd hour (get_next_blackout_end cfg day hour)
unfolding get_next_blackout_end is_in_blackout IsEnd
get_next_blackout_end-IsEnd cfg day hour h =
    let present = first_end-is_some day hour cfg.blackout_timeframes in
    let end = first_end-IsEnd day hour cfg.blackout_timeframes h in
    elim (Bool-cases (any (covers day hour) cfg.blackout_timeframes)) [
      | inl e ↦ ground arith
      | inr e ↦ ground arith
    ]
