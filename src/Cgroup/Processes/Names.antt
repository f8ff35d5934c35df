-- ===== src/Cgroup/Processes/Names.antt =====
-- The exclude list of the processes, against the names that are compared with it.
use mathlib.Core.Path.{subst}
use cpu_manager_go.Prelude.{
  ℕ, ◌≡◌, refl, sym, ◌∙◌, Bool, true, false, not, ◌||◌, some, List, [], ◌∷◌, ◌++◌, if◌then◌else◌,
  is_empty, any, arith, Bool-cases, Option-cases, inl, inr,
}
use cpu_manager_go.Prelude.Text.{Bytes, format_uint}
use cpu_manager_go.Prelude.Text.Digits.{
  is_digit, IsNumeral, format_uint-IsNumeral, format_uint-not_empty,
}
use cpu_manager_go.Prelude.Text.Split.{AllBytes}
use cpu_manager_go.Config.Defs.{Config}
use cpu_manager_go.Config.Filter.{Compile, match_pattern, excluded, is_process_excluded}
use cpu_manager_go.Cgroup.Tracking.{Tracking}
use cpu_manager_go.Cgroup.Processes.{
  ProcessInfo, base, decorate, named, choose_name, name_of, get_process_name, belongs,
  move_processes,
}

abbrev pub no_digit : ℕ → Bool
no_digit c = not (is_digit c)

orb-true : (a b : Bool) → b ≡ true → (a || b) ≡ true
orb-true a b h = ground arith

any-append : (p : ℕ → Bool) (xs ys : Bytes) → any p (xs ++ ys) ≡ (any p xs || any p ys)
any-append p [] ys = refl
any-append p (x ∷ xs) ys = ground (arith, any-append p xs ys)

numeral-digit : (s : Bytes) → IsNumeral s → is_empty s ≡ false → any is_digit s ≡ true
unfolding IsNumeral
numeral-digit [] h e = absurd (ground arith)
numeral-digit (c ∷ s) h e = ground arith

format_uint-digit : (n : ℕ) → any is_digit (format_uint n) ≡ true
format_uint-digit n =
    numeral-digit (format_uint n) (format_uint-IsNumeral n) (format_uint-not_empty n)

decorate-digit : (name : Bytes) (pid : ℕ) → any is_digit (decorate name pid) ≡ true
unfolding decorate
decorate-digit name pid =
    let whole = any-append is_digit (name ++ b'[' ∷ format_uint pid) (b']' ∷ []) in
    let front = any-append is_digit name (b'[' ∷ format_uint pid) in
    let digit = format_uint-digit pid in
    let inner : any is_digit (b'[' ∷ format_uint pid) ≡ true = ground arith in
    let shown = front ∙ orb-true (any is_digit name) _ inner in ground arith

named-digit : (name : Bytes) (pid : ℕ) → any is_digit (named name pid) ≡ true
unfolding named
named-digit name pid = elim (Bool-cases (is_empty name)) [
  | inl e ↦ rw e (format_uint-digit pid)
  | inr e ↦ rw e (decorate-digit name pid)
]

choose_name-digit :
    (words : List Bytes) (name : Bytes) (pid : ℕ) → any is_digit (choose_name words name pid) ≡ true
unfolding choose_name
choose_name-digit [] name pid = named-digit name pid
choose_name-digit (word ∷ words) name pid = decorate-digit (base word) pid

get_process_name-digit : (p : ProcessInfo) → any is_digit (get_process_name p) ≡ true
unfolding get_process_name
get_process_name-digit p = choose_name-digit _ (name_of p.comm) p.pid

no_digit-any : (s : Bytes) → AllBytes no_digit s → any is_digit s ≡ false
unfolding AllBytes
no_digit-any [] h = refl
no_digit-any (c ∷ s) h = ground (arith, no_digit-any s h.1)

-- Every pattern matches one text at most, and that one has no digit: as `^systemd$` does.
pub data AllAnchored (compile : Compile) : List Bytes → Type 0 where
  nil : AllAnchored compile []
  cons :
      {p : Bytes} {ps : List Bytes} (name : Bytes)
      → AllBytes no_digit name
      → ((re : Bytes → Bool) → compile p ≡ some re → (s : Bytes) → re s ≡ true → s ≡ name)
      → AllAnchored compile ps
      → AllAnchored compile (p ∷ ps)

match_pattern-digit :
    (compile : Compile) (p name s : Bytes)
    → AllBytes no_digit name
    → ((re : Bytes → Bool) → compile p ≡ some re → (t : Bytes) → re t ≡ true → t ≡ name)
    → any is_digit s ≡ true
    → match_pattern compile p s ≡ false
unfolding match_pattern
match_pattern-digit compile p name s plain only digit = elim (Option-cases (compile p)) [
  | inl e ↦ ground arith
  | inr (re, e) ↦ elim (Bool-cases (re s)) [
    | inl m ↦
        let same = only re e s m in
        let bare : any is_digit s ≡ false =
          subst (λ t. any is_digit t ≡ false) (sym same) (no_digit-any name plain) in
        absurd (ground arith)
    | inr m ↦ ground arith
  ]
]

excluded-digit :
    (compile : Compile) (ps : List Bytes) (s : Bytes)
    → AllAnchored compile ps
    → any is_digit s ≡ true
    → excluded compile ps s ≡ false
unfolding excluded
excluded-digit compile [] s nil h = refl
excluded-digit compile (p ∷ ps) s (cons name plain only rest) h =
    let here = match_pattern-digit compile p name s plain only h in
    let later = excluded-digit compile ps s rest h in ground arith

-- The pids of a user.
unfoldable pub pids_of : ℕ → List ProcessInfo → List ℕ
pids_of uid [] = []
pids_of uid (p ∷ ps) = let rest = pids_of uid ps in if belongs uid p.uid then p.pid ∷ rest else rest

-- A list of excluded processes whose patterns each match one name only, without digits, excludes
-- nothing: every process of the user is tried, since the name that is compared ends with the pid.
pub move_processes-all :
    {F : Type 0} (compile : Compile) (cfg : Config F) (written : ℕ → Bool) (t : Tracking) (uid : ℕ)
    (ps : List ProcessInfo)
    → AllAnchored compile cfg.process_exclude_list
    → (move_processes compile cfg written t uid ps).tried ≡ pids_of uid ps
unfolding move_processes pids_of is_process_excluded
move_processes-all compile cfg written t uid [] a = refl
move_processes-all compile cfg written t uid (p ∷ ps) a =
    let rest = move_processes-all compile cfg written t uid ps a in
    let name = get_process_name-digit p in
    let kept = excluded-digit compile cfg.process_exclude_list (get_process_name p) a name in
    ground arith
