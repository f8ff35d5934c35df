-- ===== src/Tests/Loading.antt =====
-- The loading, saving and watching of the configuration at concrete inputs.
use cpu_manager_go.Prelude.{is_empty}
use cpu_manager_go.Prelude.{
  ℕ, suc, ◌≡◌, ◌⊎◌, refl, ℤ, pos, true, false, Bool, none, some, [], ◌∷◌, ◌++◌, arith,
  if◌then◌else◌,
}
use cpu_manager_go.Prelude.Text.{
  Bytes, text, split_on, trim_space, trim_left, trim_right, atoi, digits_from,
}
use cpu_manager_go.Prelude.Text.Split.{AllBytes, join, glue}
use cpu_manager_go.Config.Defs.{Config}
use cpu_manager_go.Config.Setters.{set_port}
use cpu_manager_go.Config.Handlers.{config_field_handlers, set_config_field}
use cpu_manager_go.Config.Handlers.Sound.{
  IsSound, AllPositive, AllListsCompile, AllCompile, compiles, blackout_of,
}
use cpu_manager_go.Config.Environment.{load_from_environment}
use cpu_manager_go.Config.Environment.Blackout.{load_from_environment-blackout}
use cpu_manager_go.Config.Load.{
  content, split_pair, trim_quotes_left, trim_quotes_right, clean_value, set_pair, load_line,
  load_lines, load_from_file,
}
use cpu_manager_go.Config.Load.Sound.{load_from_file-IsSound}
use cpu_manager_go.Config.Save.{
  Disk, Access, update_line, update_lines, add_missing, update_config_lines, back_up, save_to_file,
  set_user_include_list,
}
use cpu_manager_go.Config.Save.RoundTrip.{ArePatterns}
use cpu_manager_go.Config.Save.Reload.{AllUnwritten, load-save_to_file}
use cpu_manager_go.Config.Save.Failure.{IsCommitted, set_user_include_list-atomic}
use cpu_manager_go.Config.Watcher.{
  Watcher, Found, debounce_timer, periodic_check, handle_config_change, watch_loop,
}
use cpu_manager_go.Config.Watcher.Debounce.{signals, hits, watch_loop-debounced}
use cpu_manager_go.Config.Blackout.{is_in_blackout}
use cpu_manager_go.Reloader.{System, on_config_change}
use cpu_manager_go.Reloader.Running.{Moment, observe_all, AllHysteretic, watch_loop-IsHysteretic}
use cpu_manager_go.State.Decision.Hysteresis.{IsHysteretic}
use cpu_manager_go.Tests.Model.{ints, exact, cfg}

abbrev no_variable : Bytes → Bytes
no_variable key = []

-- A quoted value keeps its closing quote if a comment follows.
clean_value_comment :
    clean_value (text "\"/var/log/resman.log\" # the log") ≡ text "/var/log/resman.log\""
unfolding clean_value trim_space trim_left trim_right trim_quotes_left trim_quotes_right
clean_value_comment = refl

abbrev port_file : Bytes
port_file = text "# exporter\nPROMETHEUS_PORT = 9100\n"

abbrev with_port : Config ℤ
with_port = record cfg { prometheus_metrics_bind_port = pos 9100 }

cfg-IsSound : IsSound ℤ exact cfg
unfolding cfg IsSound AllCompile compiles blackout_of trim_space
cfg-IsSound = (
  refl,
  refl,
  refl,
  AllPositive.cons refl (
      AllPositive.cons refl (
        AllPositive.cons refl (
          AllPositive.cons refl (
            AllPositive.cons refl (
              AllPositive.cons refl (
                AllPositive.cons refl (
                  AllPositive.cons refl (
                    AllPositive.cons refl (
                      AllPositive.cons refl
                        (AllPositive.cons refl (AllPositive.cons refl AllPositive.nil))))))))))),
  AllListsCompile.cons tt (
      AllListsCompile.cons (refl, (refl, (refl, (refl, tt))))
        (AllListsCompile.cons tt (
          AllListsCompile.cons tt
            (AllListsCompile.cons tt (AllListsCompile.cons tt AllListsCompile.nil))))),
)

load_from_file-IsSound_example : IsSound ℤ exact with_port
unfolding cfg load_from_file load_lines load_line set_pair set_config_field config_field_handlers
    set_port split_pair clean_value split_on trim_space trim_left trim_right trim_quotes_left
    trim_quotes_right atoi digits_from
load_from_file-IsSound_example =
    load_from_file-IsSound ℤ atoi exact (content port_file) cfg with_port cfg-IsSound refl

load_from_environment-blackout_example :
    let loaded = (load_from_environment atoi (λ key. text "1-5 08-18") cfg).0 in
    (is_in_blackout loaded 3 10 ≡ is_in_blackout cfg 3 10)
    × (loaded.blackout_spec
        ≡ (if is_empty (text "1-5 08-18") then cfg.blackout_spec else text "1-5 08-18"))
load_from_environment-blackout_example =
    load_from_environment-blackout atoi (λ key. text "1-5 08-18") cfg 3 10

abbrev listed : Config ℤ
listed = record cfg { user_include_list = text "^www" ∷ text "bob" ∷ [] }

abbrev disk : Disk
disk = record { file = content port_file; backup = none; temporary = none }

abbrev access : Access
access = record {
  exists = true;
  backup_written = true;
  temporary_written = true;
  renamed = true;
  partial = [];
}

load-save_to_file_example :
    load_from_file atoi exact (save_to_file listed access disk).0.file cfg
    ≡ some (record with_port {
      user_include_list = text "^www" ∷ text "bob" ∷ [];
      user_exclude_list = [];
    })
unfolding cfg load_from_file load_lines load_line set_pair set_config_field config_field_handlers
    set_port split_pair clean_value split_on trim_space trim_left trim_right trim_quotes_left
    trim_quotes_right atoi digits_from AllUnwritten ArePatterns AllBytes AllCompile compiles
    save_to_file back_up update_config_lines update_lines update_line add_missing join glue
load-save_to_file_example =
    load-save_to_file atoi exact listed cfg with_port access disk port_file refl (ground arith)
      (ground arith) tt (refl, (refl, tt)) tt refl refl

set_user_include_list-atomic_example :
    let o = set_user_include_list exact access [] cfg disk in
    ((o.previous ≡ none) × (o.cfg ≡ cfg) × (o.disk.file ≡ disk.file))
    ⊎ ((o.previous ≡ some cfg.user_include_list) × IsCommitted exact access [] cfg disk o)
set_user_include_list-atomic_example = set_user_include_list-atomic exact access [] cfg disk

abbrev weekend : Config ℤ
weekend = record cfg {
  blackout_timeframes =
      record { days_of_week = pos 6 ∷ []; hour_start = pos 8; hour_end = pos 18 } ∷ [];
}

abbrev watcher : Watcher ℤ
watcher = record {
  current_config = cfg;
  is_running = true;
  last_mod_time = 5;
  last_file_size = 40;
  pending_reload = false;
}

abbrev changed : Found ℤ
changed = record { stat = some (record { mod_time = 9; size = 34 }); loaded = some with_port }

abbrev components : System ℤ
components = record {
  state_manager = some cfg;
  collector = some cfg;
  exporter = some (record {
    is_running = true;
    bind_host = text "127.0.0.1";
    bind_port = pos 1974;
    stop_requests = 0;
  });
}

abbrev count_changes : Config ℤ → ℕ → ℕ × Bool
count_changes c n = (suc n, false)

watch_loop-debounced_example :
    watch_loop count_changes
      (signals ((true, true, changed) ∷ (true, true, changed) ∷ [])
        ++ (debounce_timer, changed) ∷ [])
      (watcher, 0)
    ≡ (if true then handle_config_change count_changes changed (watcher, 0) else (watcher, 0))
unfolding hits
watch_loop-debounced_example =
    watch_loop-debounced count_changes ((true, true, changed) ∷ (true, true, changed) ∷ []) changed
      watcher 0 refl

abbrev moment : Moment
moment = record {
  signal = periodic_check;
  stat = some (record { mod_time = 9; size = 34 });
  file = content port_file;
  getenv = no_variable;
}

cfg-IsHysteretic : IsHysteretic cfg
unfolding cfg
cfg-IsHysteretic = record { cpu = omega arith; ram = λ e. ground arith; io = λ e. ground arith }

watch_loop-IsHysteretic_example :
    let steps = observe_all ints atoi exact (λ url. true) (pos 60000) (moment ∷ []) in
    let after_steps = watch_loop (on_config_change false) steps (watcher, components) in
    IsHysteretic after_steps.0.current_config
    × AllHysteretic ints atoi exact (λ url. true) (pos 60000) after_steps.1
watch_loop-IsHysteretic_example =
    watch_loop-IsHysteretic ints atoi exact (λ url. true) (pos 60000) false (moment ∷ []) watcher
      components cfg-IsHysteretic (cfg-IsHysteretic, cfg-IsHysteretic)
