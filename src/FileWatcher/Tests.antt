-- ===== src/FileWatcher/Tests.antt =====
-- Runs of the file watcher, and the theorems at concrete inputs.
use baseplate_py.Prelude.{ℕ, suc, ◌<◌, ◌≡◌, Option, none, some, arith}
use baseplate_py.FileWatcher.{Files, FileWatcher, new_watcher, get_data, wait_for_file}
use baseplate_py.FileWatcher.Waiting.{Waited, wait_for_file-Waited}

-- A file that comes at time 3, dated 7, and cannot be parsed before time 4.
abbrev stat_at : ℕ → Option ℕ
stat_at (suc (suc (suc t))) = some 7
stat_at _ = none

abbrev read_at : ℕ → Option ℕ
read_at (suc (suc (suc (suc t)))) = some 42
read_at _ = none

abbrev files : Files ℕ (Unit {0})
files = record { getmtime = λ w t. (stat_at t, w, t); load = λ w t. (read_at t, w, t) }

stat_dated : (t m : ℕ) → stat_at t ≡ some m → 0 < m
stat_dated (suc (suc (suc t))) m e = ground arith
stat_dated _ m e = absurd (ground arith)

after_load : FileWatcher ℕ
after_load = (get_data files new_watcher tt 5).1

-- With a timeout of 1 there is no file yet.
wait_for_file-Waited_example :
    Waited files
      (λ w t. omega arith)
      (λ w t. omega arith)
      (λ w t m e. stat_dated t m e)
      (wait_for_file files 3 1 none tt 0)
wait_for_file-Waited_example =
    wait_for_file-Waited files (λ w t. omega arith) (λ w t. omega arith)
      (λ w t m e. stat_dated t m e) 1 none tt 0
