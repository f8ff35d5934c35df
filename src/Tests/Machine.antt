-- ===== src/Tests/Machine.antt =====
-- The collector and the cgroups at concrete inputs.
use cpu_manager_go.Prelude.{
  sym, ap, ◌∙◌, ℕ, ◌≡◌, refl, ℤ, pos, Bool, true, none, some, List, [], ◌∷◌, arith, if◌then◌else◌,
  ◌==◌,
}
use mathlib.Core.Option.{some-injective}
use cpu_manager_go.Prelude.Dict.{lookup}
use cpu_manager_go.Prelude.Text.{Bytes, text, same_iff}
use cpu_manager_go.Prelude.Text.Split.{AllBytes}
use cpu_manager_go.Config.Defs.{Config}
use cpu_manager_go.Metrics.Cache.{Cache, set_cached}
use cpu_manager_go.Metrics.Cache.Bound.{Together, Past, IsBounded, set_cached-IsBounded}
use cpu_manager_go.Metrics.Collector.{Collector, Machine, eq_uid}
use cpu_manager_go.Metrics.Collector.Typed.{AllFit, IsTyped}
use cpu_manager_go.Metrics.Collector.Calls.{
  all_users_cpu, under_load, total_cores, user_cpu, calls_return, calls_return-true,
}
use cpu_manager_go.Prelude.{◌*◌}
use cpu_manager_go.Prelude.Text.{cut_suffix, parse_uint, digits_from}
use cpu_manager_go.Config.Quota.{parse_suffixes, parse_ram_quota}
use cpu_manager_go.Cgroup.Io.{parse_bps_value}
use cpu_manager_go.Cgroup.Io.Units.{parse_bps_value-eq}
use cpu_manager_go.Cgroup.Tracking.{remove_cgroup_from_file}
use cpu_manager_go.Cgroup.Tracking.Entries.{entries_of, lookup-remove_cgroup_from_file}
use cpu_manager_go.Cgroup.PsiWatcher.{new_psi_watcher, set_threshold}
use cpu_manager_go.Cgroup.PsiWatcher.Unique.{
  count_active, IsUnique, Operation, add, remove, run_operations, run_operations-IsUnique,
}
use cpu_manager_go.Cgroup.Processes.{ProcessInfo, move_processes}
use cpu_manager_go.Cgroup.Processes.Names.{AllAnchored, pids_of, move_processes-all}
use cpu_manager_go.Tests.Model.{ints, exact, cfg}

abbrev names : Cache ℕ Bytes
names = record {
  values = (1001, text "bob") ∷ (1002, text "eve") ∷ [];
  times = (1001, 3) ∷ (1002, 2) ∷ [];
}

eq_uid-refl : (k : ℕ) → eq_uid k k ≡ true
eq_uid-refl k = ground arith

eq_uid-sound : (j k : ℕ) → eq_uid j k ≡ true → j ≡ k
eq_uid-sound j k h = ground arith

names-IsBounded : IsBounded eq_uid eq_uid-refl eq_uid-sound 0 2 4 names
unfolding Past
names-IsBounded = record {
  together = Together.cons (Together.cons Together.nil);
  past = (omega arith, refl, (omega arith, refl, tt));
  size = omega arith;
}

-- A full cache takes a third user.
set_cached-IsBounded_example :
    IsBounded eq_uid eq_uid-refl eq_uid-sound 0 2 9
      (set_cached eq_uid 0 2 4 1003 (text "amy") names)
set_cached-IsBounded_example =
    set_cached-IsBounded eq_uid eq_uid-refl eq_uid-sound 0 2 4 9 1003 (text "amy") names
      (omega arith) (omega arith) refl names-IsBounded

abbrev collector : Collector ℤ
collector = record {
  cfg = cfg;
  cache = record { values = []; times = [] };
  usernames = names;
  username_cache_ttl = pos 60;
  prev_proc_cpu = [];
  prev_proc_time = [];
  ema = [];
}

abbrev machine : Machine ℤ
machine = record {
  now = 9;
  unix_milli = 100000;
  uptime = pos 100;
  boot_time = some 1;
  processes =
      record {
        pid = 7;
        uid = some 1001;
        statuses = some (text "R" ∷ []);
        create_time = some 2000;
        times = some (pos 1, pos 1);
        rss = some 4096;
        io = (1, 2, 3, 4);
      }
      ∷ [];
  lookup_id = λ uid. none;
  passwd = none;
  cores = 8;
  cpu_percent = (some (pos 40), pos 0);
  used_memory = (some (pos 900), pos 0);
  total_memory = (none, pos 0);
  cached_memory = (some (pos 100), pos 0);
  load = some (pos 3);
}

calls_return-true_example :
    calls_return ints exact
      ((all_users_cpu, machine)
        ∷ (user_cpu 1001, machine)
        ∷ (under_load, machine)
        ∷ (total_cores, machine)
        ∷ [])
      collector
    ≡ true
unfolding IsTyped AllFit
calls_return-true_example =
    calls_return-true ints exact
      ((all_users_cpu, machine)
        ∷ (user_cpu 1001, machine)
        ∷ (under_load, machine)
        ∷ (total_cores, machine)
        ∷ [])
      collector tt

abbrev tracked : Bytes
tracked = text "1001:/sys/fs/cgroup/a\n\nbroken\n1002:/sys/fs/cgroup/b\n"

lookup-remove_cgroup_from_file_example :
    lookup 1002 (entries_of (λ path. true) (remove_cgroup_from_file 1001 (some tracked)))
    ≡ (if 1002 == 1001 then none else lookup 1002 (entries_of (λ path. true) (some tracked)))
unfolding AllBytes
lookup-remove_cgroup_from_file_example =
    lookup-remove_cgroup_from_file (λ path. true) 1001 1002 tracked (ground arith)

abbrev additions : List Operation
additions =
    add true true 1001 (text "cpu") (text "/a/cpu.pressure")
    ∷ add true true 1001 (text "cpu") (text "/a/cpu.pressure")
    ∷ remove 1001 (text "cpu")
    ∷ add true true 1001 (text "cpu") (text "/a/cpu.pressure")
    ∷ []

run_operations-IsUnique_example :
    IsUnique (run_operations additions (set_threshold (text "cpu") 50000 (new_psi_watcher 1000000)))
unfolding set_threshold new_psi_watcher
run_operations-IsUnique_example =
    run_operations-IsUnique additions (set_threshold (text "cpu") 50000 (new_psi_watcher 1000000))
      (unfold IsUnique in unfold count_active in λ uid typ. omega arith)

abbrev bus : ProcessInfo
bus = record { pid = 55; uid = some 1001; comm = some (text "polkitd\n"); cmdline = none }

abbrev guarded : Config ℤ
guarded = record cfg { process_exclude_list = text "polkitd" ∷ [] }

polkitd-exact :
    (re : Bytes → Bool)
    → exact (text "polkitd") ≡ some re
    → (s : Bytes) → re s ≡ true
    → s ≡ text "polkitd"
polkitd-exact re e s m =
    sym ((same_iff (text "polkitd") s).0 (ap (λ f. f s) (some-injective _ _ e) ∙ m))

-- The process is excluded by its name, and is moved.
move_processes-all_example :
    (move_processes exact guarded
      (λ pid. true)
      (record { created = []; file = none })
      1001
      (bus ∷ [])).tried
    ≡ pids_of 1001 (bus ∷ [])
unfolding AllBytes
move_processes-all_example =
    move_processes-all exact guarded (λ pid. true) (record { created = []; file = none }) 1001
      (bus ∷ []) (AllAnchored.cons (text "polkitd") (ground arith) polkitd-exact AllAnchored.nil)

parse_bps_value-eq_example : parse_bps_value (text "512M") ≡ 512 * 1024 * 1024
unfolding parse_ram_quota parse_suffixes cut_suffix parse_uint digits_from
parse_bps_value-eq_example = parse_bps_value-eq (text "512M") (512 * 1024 * 1024) refl
