-- ===== src/Config/Watcher/Debounce.antt =====
-- When the watcher reloads.
use cpu_manager_go.Prelude.{
  Bool, true, false, not, ◌&&◌, ◌||◌, ◌≡◌, refl, ap, sym, ◌∙◌, List, [], ◌∷◌, ◌++◌, arith,
  if◌then◌else◌, Bool-cases, inl, inr,
}
use cpu_manager_go.Config.Defs.{Config}
use cpu_manager_go.Config.Watcher.{
  Watcher, Found, Signal, file_event, debounce_timer, handle_config_change, watch_step, watch_loop,
}

-- Events of the file system: whether they are relevant, whether they name the file, and what a step
-- would find.
abbrev pub Burst : Type 0 → Type 0
Burst F = List (Bool × Bool × Found F)

unfoldable pub signals : {F : Type 0} → Burst F → List (Signal × Found F)
signals [] = []
signals ((relevant, ours, found) ∷ burst) = (file_event relevant ours, found) ∷ signals burst

-- One of the events is a relevant one of the file.
unfoldable pub hits : {F : Type 0} → Burst F → Bool
hits [] = false
hits ((relevant, ours, found) ∷ burst) = (relevant && ours) || hits burst

module _ {F S : Type 0} (apply : Config F → S → S × Bool) where
  watch_loop-append :
      (xs ys : List (Signal × Found F)) (ws : Watcher F × S)
      → watch_loop apply (xs ++ ys) ws ≡ watch_loop apply ys (watch_loop apply xs ws)
  unfolding watch_loop
  watch_loop-append [] ys ws = refl
  watch_loop-append ((signal, found) ∷ xs) ys ws =
      watch_loop-append xs ys (watch_step apply signal found ws)

  abbrev with_pending : Bool → Watcher F → S → Watcher F × S
  with_pending b w s = (record w { pending_reload = b }, s)

  watch_step-pending :
      (relevant ours : Bool) (found : Found F) (w : Watcher F) (s : S)
      → watch_step apply (file_event relevant ours) found (w, s)
        ≡ with_pending (w.pending_reload || (relevant && ours)) w s
  unfolding watch_step
  watch_step-pending false ours found w s =
      ap (λ b. with_pending b w s)
        (let e : w.pending_reload ≡ (w.pending_reload || false) = ground arith in e)
  watch_step-pending true ours found w s = elim (Bool-cases (ours && not w.pending_reload)) [
    | inl e ↦
        let k : true ≡ (w.pending_reload || ours) = ground arith in
        rw e (ap (λ b. with_pending b w s) k)
    | inr e ↦
        let k : w.pending_reload ≡ (w.pending_reload || ours) = ground arith in
        rw e (ap (λ b. with_pending b w s) k)
  ]

  watch_loop-pending :
      (burst : Burst F) (w : Watcher F) (s : S)
      → watch_loop apply (signals burst) (w, s) ≡ with_pending (w.pending_reload || hits burst) w s
  unfolding watch_loop signals hits
  watch_loop-pending [] w s =
      ap (λ b. with_pending b w s)
        (let e : w.pending_reload ≡ (w.pending_reload || false) = ground arith in e)
  watch_loop-pending ((relevant, ours, found) ∷ burst) w s =
      let one = w.pending_reload || (relevant && ours) in
      ap (watch_loop apply (signals burst)) (watch_step-pending relevant ours found w s)
      ∙ watch_loop-pending burst (record w { pending_reload = one }) s
      ∙ ap (λ b. with_pending b w s)
          (let e : (one || hits burst) ≡ (w.pending_reload || ((relevant && ours) || hits burst)) =
              ground arith in
            e)

  abbrev fire : Found F → Watcher F → S → Bool → Watcher F × S
  fire found w s b =
      if b then handle_config_change apply found (with_pending false w s) else with_pending b w s

  abbrev choose : Found F → Watcher F → S → Bool → Watcher F × S
  choose found w s b = if b then handle_config_change apply found (w, s) else (w, s)

  -- A burst of events, however long, followed by the debounce timer reloads the configuration at most
  -- once: what is left is what one call of `handleConfigChange` leaves, if one of the events is a write,
  -- creation, removal or renaming of the file, and else nothing has changed.
  pub watch_loop-debounced :
      (burst : Burst F) (found : Found F) (w : Watcher F) (s : S)
      → w.pending_reload ≡ false
      → watch_loop apply (signals burst ++ (debounce_timer, found) ∷ []) (w, s)
        ≡ (if hits burst then handle_config_change apply found (w, s) else (w, s))
  unfolding watch_loop watch_step
  watch_loop-debounced burst found w s h =
      let quiet : with_pending false w s ≡ (w, s) = ap (λ b. with_pending b w s) (sym h) in
      watch_loop-append (signals burst) _ (w, s)
      ∙ ap (watch_step apply debounce_timer found) (watch_loop-pending burst w s)
      ∙ elim (Bool-cases (hits burst)) [
        | inl e ↦
            let value : (w.pending_reload || hits burst) ≡ true = ground arith in
            ap (fire found w s) value
            ∙ ap (handle_config_change apply found) quiet
            ∙ sym (ap (choose found w s) e)
        | inr e ↦
            let value : (w.pending_reload || hits burst) ≡ false = ground arith in
            ap (fire found w s) value ∙ quiet ∙ sym (ap (choose found w s) e)
      ]
