-- ===== src/Config/Watcher/Held.antt =====
-- The configurations that the watcher and the rest of the program hold.
use cpu_manager_go.Prelude.{
  Bool, false, not, ◌&&◌, Option, none, some, List, [], ◌∷◌, Bool-cases, inl, inr, Option-cases,
}
use cpu_manager_go.Config.Defs.{Config}
use cpu_manager_go.Config.Watcher.{
  FileInfo, Watcher, Found, Signal, file_event, watch_error, periodic_check, debounce_timer,
  is_unchanged, try_apply, reload, handle_config_change, check_config_change, set_pending,
  watch_step, watch_loop,
}

module _ {F S : Type 0} (apply : Config F → S → S × Bool) (Good : Config F → Type 0)
    (Holds : S → Type 0) where
  abbrev pub LoadsGood : Option (Config F) → Type 0
  LoadsGood none = Unit {0}
  LoadsGood (some c) = Good c

  abbrev pub AllLoadGood : List (Signal × Found F) → Type 0
  AllLoadGood [] = Unit {0}
  AllLoadGood ((signal, found) ∷ rest) = LoadsGood found.loaded × AllLoadGood rest

  abbrev pub Both : Watcher F × S → Type 0
  Both (w, s) = Good w.current_config × Holds s

  module _ (keeps : (c : Config F) (s : S) → Good c → Holds s → Holds (apply c s).0) where
    try_apply-Both :
        (c : Config F) (info : FileInfo) (w : Watcher F) (s : S)
        → Good c
        → Both (w, s)
        → Both (try_apply apply c info (w, s))
    unfolding try_apply
    try_apply-Both c info w s g b = elim (Bool-cases (apply c s).1) [
      | inl e ↦ rw e (b.0, keeps c s g b.1)
      | inr e ↦ rw e (g, keeps c s g b.1)
    ]

    reload-Both :
        (o : Option (Config F)) (info : FileInfo) (ws : Watcher F × S)
        → LoadsGood o
        → Both ws
        → Both (reload apply o info ws)
    unfolding reload
    reload-Both none info ws g b = b
    reload-Both (some c) info (w, s) g b = try_apply-Both c info w s g b

    handle_config_change-Both :
        (found : Found F) (ws : Watcher F × S)
        → LoadsGood found.loaded
        → Both ws
        → Both (handle_config_change apply found ws)
    unfolding handle_config_change
    handle_config_change-Both found ws g b = elim (Option-cases found.stat) [
      | inl e ↦ rw (handle_config_change, e) b
      | inr (info, e) ↦ elim (Bool-cases (is_unchanged info ws.0)) [
        | inl u ↦ rw (handle_config_change, e, u) b
        | inr u ↦ rw (handle_config_change, e, u) (reload-Both found.loaded info ws g b)
      ]
    ]

    check_config_change-Both :
        (found : Found F) (ws : Watcher F × S)
        → LoadsGood found.loaded
        → Both ws
        → Both (check_config_change apply found ws)
    unfolding check_config_change
    check_config_change-Both found ws g b = elim (Option-cases found.stat) [
      | inl e ↦ rw (check_config_change, e) b
      | inr (info, e) ↦ elim (Bool-cases (is_unchanged info ws.0)) [
        | inl u ↦ rw (check_config_change, e, u) b
        | inr u ↦ rw (check_config_change, e, u) (handle_config_change-Both found ws g b)
      ]
    ]

    watch_step-Both :
        (signal : Signal) (found : Found F) (ws : Watcher F × S)
        → LoadsGood found.loaded
        → Both ws
        → Both (watch_step apply signal found ws)
    unfolding watch_step
    watch_step-Both (file_event relevant ours) found ws g b =
        elim (Bool-cases (relevant && ours && not ws.0.pending_reload)) [
          | inl e ↦ rw e b
          | inr e ↦ rw e b
        ]
    watch_step-Both watch_error found ws g b = b
    watch_step-Both periodic_check found ws g b = check_config_change-Both found ws g b
    watch_step-Both debounce_timer found ws g b = elim (Bool-cases ws.0.pending_reload) [
      | inl e ↦ rw e (handle_config_change-Both found (set_pending false ws) g b)
      | inr e ↦ rw e b
    ]

    -- Whatever the loop receives, the watcher and the rest of the program hold good configurations
    -- only.
    pub watch_loop-Both :
        (steps : List (Signal × Found F)) (ws : Watcher F × S)
        → AllLoadGood steps
        → Both ws
        → Both (watch_loop apply steps ws)
    unfolding watch_loop
    watch_loop-Both [] ws g b = b
    watch_loop-Both ((signal, found) ∷ steps) ws g b =
        watch_loop-Both steps (watch_step apply signal found ws) g.1
          (watch_step-Both signal found ws g.0 b)
