-- ===== src/Cgroup/PsiWatcher/Unique.antt =====
-- The monitors of the watcher: one at most for each pressure file.
use mathlib.Core.Path.{subst}
use cpu_manager_go.Prelude.{
  ℕ, suc, ◌+◌, ◌≤◌, ◌≡◌, refl, sym, Bool, false, ◌&&◌, ◌==◌, List, [], ◌∷◌, ◌++◌, if◌then◌else◌,
  any, arith, Bool-cases, Option-cases, inl, inr,
}
use cpu_manager_go.Prelude.Text.{Bytes, same, same_iff}
use cpu_manager_go.Cgroup.PsiWatcher.{
  Monitor, PsiWatcher, find_threshold, is_monitor, wake, new_monitor, add_monitor, deactivate,
  remove_monitor,
}

-- The active monitors of a user and a type.
unfoldable pub count_active : ℕ → Bytes → List Monitor → ℕ
count_active uid typ [] = 0
count_active uid typ (m ∷ monitors) =
    let rest = count_active uid typ monitors in if is_monitor uid typ m then suc rest else rest

count_active-append :
    (uid : ℕ) (typ : Bytes) (xs ys : List Monitor)
    → count_active uid typ (xs ++ ys) ≡ count_active uid typ xs + count_active uid typ ys
unfolding count_active
count_active-append uid typ [] ys = omega arith
count_active-append uid typ (m ∷ xs) ys = ground (arith, count_active-append uid typ xs ys)

count_active-none :
    (uid : ℕ) (typ : Bytes) (xs : List Monitor)
    → any (is_monitor uid typ) xs ≡ false
    → count_active uid typ xs ≡ 0
unfolding count_active
count_active-none uid typ [] h = refl
count_active-none uid typ (m ∷ xs) h = ground (arith, count_active-none uid typ xs)

count_active-deactivate :
    (u uid : ℕ) (t typ : Bytes) (xs : List Monitor)
    → count_active u t (deactivate uid typ xs) ≤ count_active u t xs
unfolding count_active deactivate is_monitor
count_active-deactivate u uid t typ [] = omega arith
count_active-deactivate u uid t typ (m ∷ xs) =
    ground (arith, count_active-deactivate u uid t typ xs)

-- No user and type have two active monitors.
unfoldable pub IsUnique : PsiWatcher → Type 0
IsUnique w = (uid : ℕ) (typ : Bytes) → count_active uid typ w.monitors ≤ 1

count_active-new :
    (u uid : ℕ) (t typ path : Bytes) (xs : List Monitor)
    → any (is_monitor uid typ) xs ≡ false
    → count_active u t xs ≤ 1
    → count_active u t (xs ++ new_monitor uid typ path ∷ []) ≤ 1
unfolding count_active
count_active-new u uid t typ path xs h one =
    let sum = count_active-append u t xs (new_monitor uid typ path ∷ []) in
    let old = count_active-none uid typ xs h in
    elim (Bool-cases (uid == u && same typ t)) [
      | inl e ↦
          let same_uid : uid ≡ u = ground arith in
          let same_typ : typ ≡ t = (same_iff typ t).0 (ground arith) in
          let none_yet : count_active u t xs ≡ 0 =
            subst (λ k. count_active k t xs ≡ 0) same_uid
              (subst (λ k. count_active uid k xs ≡ 0) same_typ old) in
          unfold is_monitor in ground arith
      | inr e ↦ unfold is_monitor in ground arith
    ]

wake-monitors : (w : PsiWatcher) → (wake w).monitors ≡ w.monitors
unfolding wake
wake-monitors w = ground arith

add_monitor-IsUnique :
    (opened written : Bool) (uid : ℕ) (typ path : Bytes) (w : PsiWatcher)
    → IsUnique w
    → IsUnique (add_monitor opened written uid typ path w).0
unfolding add_monitor IsUnique
add_monitor-IsUnique opened written uid typ path w h u t =
    elim (Bool-cases (any (is_monitor uid typ) w.monitors)) [
      | inl e ↦ rw e (h u t)
      | inr e ↦ elim (Option-cases (find_threshold typ w.thresholds)) [
        | inl n ↦ rw (e, n) (h u t)
        | inr (us, n) ↦ elim (Bool-cases (opened && written)) [
          | inl k ↦
              let next = record w { monitors = w.monitors ++ new_monitor uid typ path ∷ [] } in
              let grown = count_active-new u uid t typ path w.monitors e (h u t) in
              rw (e, n, k) (subst (λ l. count_active u t l ≤ 1) (sym (wake-monitors next)) grown)
          | inr k ↦ rw (e, n, k) (h u t)
        ]
      ]
    ]

remove_monitor-IsUnique :
    (uid : ℕ) (typ : Bytes) (w : PsiWatcher) → IsUnique w → IsUnique (remove_monitor uid typ w)
unfolding remove_monitor IsUnique
remove_monitor-IsUnique uid typ w h u t =
    let next = record w { monitors = deactivate uid typ w.monitors } in
    let fewer = count_active-deactivate u uid t typ w.monitors in
    let before = h u t in
    subst (λ l. count_active u t l ≤ 1) (sym (wake-monitors next)) (omega arith)

-- Calls of the watcher; an addition says whether the file opens and takes the threshold.
pub data Operation : Type 0 where
  add : Bool → Bool → ℕ → Bytes → Bytes → Operation
  remove : ℕ → Bytes → Operation

unfoldable pub run_operations : List Operation → PsiWatcher → PsiWatcher
run_operations [] w = w
run_operations (add opened written uid typ path ∷ ops) w =
    run_operations ops (add_monitor opened written uid typ path w).0
run_operations (remove uid typ ∷ ops) w = run_operations ops (remove_monitor uid typ w)

-- However monitors are added and removed, no user and type ever have two active monitors, if they
-- have not at the start.
pub run_operations-IsUnique :
    (ops : List Operation) (w : PsiWatcher) → IsUnique w → IsUnique (run_operations ops w)
unfolding run_operations
run_operations-IsUnique [] w h = h
run_operations-IsUnique (add opened written uid typ path ∷ ops) w h =
    run_operations-IsUnique ops (add_monitor opened written uid typ path w).0
      (add_monitor-IsUnique opened written uid typ path w h)
run_operations-IsUnique (remove uid typ ∷ ops) w h =
    run_operations-IsUnique ops (remove_monitor uid typ w) (remove_monitor-IsUnique uid typ w h)
