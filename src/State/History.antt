-- ===== src/State/History.antt =====
-- state/control_cycle.go: the history of the last control cycles.
use mathlib.Core.List.{append_assoc, append-nil}
use cpu_manager_go.Prelude.{
  ℕ, suc, ◌+◌, ◌-◌, ◌≡◌, sym, ap, ◌∙◌, ℤ, pos, ltb_ℤ, leb_ℤ, pos_part, Bool, ◌||◌, List, [], ◌∷◌,
  ◌++◌, if◌then◌else◌, ltb, arith, length, drop, length-append, length-drop, drop_append, drop-drop,
  min, Bool-cases, inl, inr,
}
use cpu_manager_go.Prelude.Clock.{Instant}
use cpu_manager_go.State.Defs.{SystemMetrics, Decision, Reason}

pub record ControlCycleEntry (F : Type 0) : Type 0 where
  pub timestamp : Instant
  pub decision : Decision
  pub reason : Reason
  pub total_cpu_usage : F
  pub user_cpu_usage : F
  pub active_users : ℕ
  pub limits_active : Bool
  pub duration_ms : ℤ

pub record ControlHistory (F : Type 0) : Type 0 where
  pub entries : List (ControlCycleEntry F)
  pub max_size : ℕ

-- The last `n` of a list.
abbrev pub last : {A : Type 0} → ℕ → List A → List A
last n xs = drop (length xs - n) xs

module _ {F : Type 0} where
  -- `addControlHistoryEntry`
  unfoldable pub add_control_history_entry :
      ControlCycleEntry F → ControlHistory F → ControlHistory F
  add_control_history_entry entry h =
      let entries = h.entries ++ entry ∷ [] in
      if ltb h.max_size (length entries)
      then record h { entries = drop (length entries - h.max_size) entries }
      else record h { entries = entries }

  -- `GetControlHistory`
  unfoldable pub get_control_history : ℤ → ControlHistory F → List (ControlCycleEntry F)
  get_control_history limit h =
      let n = length h.entries in
      if leb_ℤ limit (pos 0) || ltb_ℤ (pos n) limit
      then drop (n - n) h.entries
      else drop (n - pos_part limit) h.entries

  -- `recordControlCycle`
  unfoldable pub record_control_cycle :
      Decision → Reason → SystemMetrics F → Bool → ℤ → Instant → ControlHistory F → ControlHistory F
  record_control_cycle decision reason metrics limits_active duration_ms now h =
      add_control_history_entry
        (record {
          timestamp = now;
          decision = decision;
          reason = reason;
          total_cpu_usage = metrics.total_cpu_usage;
          user_cpu_usage = metrics.limited_users_cpu_usage;
          active_users = length metrics.user_cpu_usage;
          limits_active = limits_active;
          duration_ms = duration_ms;
        })
        h

  -- A history after each entry of a list, in order.
  unfoldable pub add_entries : List (ControlCycleEntry F) → ControlHistory F → ControlHistory F
  add_entries [] h = h
  add_entries (e ∷ es) h = add_entries es (add_control_history_entry e h)

last-snoc :
    {A : Type 0} (n : ℕ) (xs : List A) (x : A)
    → last n (last n xs ++ x ∷ []) ≡ last n (xs ++ x ∷ [])
last-snoc n xs x =
    let k = length xs - n in
    let whole = xs ++ x ∷ [] in
    let moved : drop k whole ≡ drop k xs ++ x ∷ [] = drop_append k xs (x ∷ []) (omega arith) in
    let total = length-append xs (x ∷ []) in
    let rest = length-drop k whole in
    let index : k + (length (drop k whole) - n) ≡ length whole - n = omega arith in
    ap (last n) (sym moved)
    ∙ drop-drop (length (drop k whole) - n) k whole
    ∙ ap (λ j. drop j whole) index

last-last : {A : Type 0} (m n : ℕ) (xs : List A) → last m (last n xs) ≡ last (min m n) xs
last-last m n xs =
    let k = length xs - n in
    let rest = length-drop k xs in
    let index : k + (length (drop k xs) - m) ≡ length xs - min m n = omega arith in
    drop-drop (length (drop k xs) - m) k xs ∙ ap (λ j. drop j xs) index

module _ {F : Type 0} where
  entries-add :
      (entry : ControlCycleEntry F) (h : ControlHistory F)
      → (add_control_history_entry entry h).entries ≡ last h.max_size (h.entries ++ entry ∷ [])
  unfolding add_control_history_entry
  entries-add entry h = elim (Bool-cases (ltb h.max_size (length (h.entries ++ entry ∷ [])))) [
    | inl many ↦ ground arith
    | inr few ↦
        let index : length (h.entries ++ entry ∷ []) - h.max_size ≡ 0 = ground arith in ground arith
  ]

  max_size-add :
      (entry : ControlCycleEntry F) (h : ControlHistory F)
      → (add_control_history_entry entry h).max_size ≡ h.max_size
  unfolding add_control_history_entry
  max_size-add entry h = ground arith

  entries-add_entries :
      (es prev : List (ControlCycleEntry F)) (h : ControlHistory F)
      → h.entries ≡ last h.max_size prev
      → (add_entries es h).entries ≡ last h.max_size (prev ++ es)
  unfolding add_entries
  entries-add_entries [] prev h e = e ∙ ap (last h.max_size) (sym (append-nil prev))
  entries-add_entries (entry ∷ es) prev h e =
      let next = add_control_history_entry entry h in
      let size = max_size-add entry h in
      let now : next.entries ≡ last next.max_size (prev ++ entry ∷ []) =
        entries-add entry h
        ∙ ap (λ xs. last h.max_size (xs ++ entry ∷ [])) e
        ∙ last-snoc h.max_size prev entry
        ∙ ap (λ n. last n (prev ++ entry ∷ [])) (sym size) in
      entries-add_entries es (prev ++ entry ∷ []) next now
      ∙ ap (λ n. last n ((prev ++ entry ∷ []) ++ es)) size
      ∙ ap (last h.max_size) (append_assoc prev (entry ∷ []) es)

  get_control_history-last :
      (limit : ℕ) (h : ControlHistory F)
      → get_control_history (pos (suc limit)) h ≡ last (suc limit) h.entries
  unfolding get_control_history
  get_control_history-last limit h = elim (Bool-cases (ltb (length h.entries) (suc limit))) [
    | inl few ↦
        let index : length h.entries - suc limit ≡ length h.entries - length h.entries =
          ground arith in
        ground arith
    | inr many ↦ ground arith
  ]

  -- Once entries have been added one by one to an empty history, `GetControlHistory` with a positive
  -- limit returns the last of them, in order: as many as the limit asks for and the history keeps.
  pub get-add_entries :
      (es : List (ControlCycleEntry F)) (max_size limit : ℕ)
      → get_control_history
          (pos (suc limit))
          (add_entries es (record { entries = []; max_size = max_size }))
        ≡ last (min (suc limit) max_size) es
  get-add_entries es max_size limit =
      let start : ControlHistory F = record { entries = []; max_size = max_size } in
      let nothing : 0 ≡ 0 - max_size = omega arith in
      get_control_history-last limit (add_entries es start)
      ∙ ap (last (suc limit)) (entries-add_entries es [] start (ap (λ k. drop k []) nothing))
      ∙ last-last (suc limit) max_size es
