-- ===== src/Container/Limits/Examples.antt =====
-- The theorem on LimitMemory at a memory cgroup of two numbers, which a limit is raised in, with 3000
-- bytes in use.
use warden_linux.Base.{
  ℕ, ◌≡◌, refl, true, false, [], String, Option, none, some, ok, err, Exec, arith, ◌+◌, ◌*◌, ◌/◌,
  ◌<◌, ◌≤◌, leb, ltb, if◌then◌else◌,
}
use warden_linux.CgroupsManager.{memory_file, file, subsystem_path}
use warden_linux.Container.Limits.Memory.{MemoryCgroup, limit_memory_both}
use warden_linux.Container.Limits.{limit_memory}
use warden_linux.Container.{Host}
use warden_linux.Examples.{web, ports_left}
use warden_linux.PortPool.{PortPool}
use warden_linux.System.{Error, System}
use warden_linux.Text.Decimal.{parse_uint-decimal}
use warden_linux.Text.{◌===◌, parse_uint, path_join, decimal}

-- The limit on memory, and that on memory and swap.
abbrev Limits : Type 0
Limits = ℕ × ℕ

abbrev limit_file : String
limit_file = memory_file "/cgroups" "c7" "memory.limit_in_bytes"

abbrev memsw_file : String
memsw_file = memory_file "/cgroups" "c7" "memory.memsw.limit_in_bytes"

-- What the kernel makes of a limit.
abbrev pages : ℕ → ℕ
pages n = (n + 4095) / 4096 * 4096

-- A write that would put the first above the second fails, and so does one of less than is in use.
abbrev write_number : String → ℕ → Exec Limits Error (Unit {0})
write_number file n (limit, memsw) =
    if ltb n 3000
    then (err (Error.os "EBUSY"), (limit, memsw))
    else if file === limit_file
    then (if leb (pages n) memsw
        then (ok tt, (pages n, memsw))
        else (err (Error.os "EINVAL"), (limit, memsw)))
    else if leb limit (pages n)
    then (ok tt, (limit, pages n))
    else (err (Error.os "EINVAL"), (limit, memsw))

abbrev write_text : String → Option ℕ → Exec Limits Error (Unit {0})
write_text file none w = (err (Error.os "EINVAL"), w)
write_text file (some n) w = write_number file n w

abbrev cgroups : System Limits
cgroups = record {
  search_path = "/bin";
  run = λ cmd w. (ok tt, w);
  start = λ cmd w. (ok tt, w);
  kill = λ cmd w. w;
  interrupt = λ cmd w. w;
  output = λ cmd w. (ok "", w);
  pipe = λ cmd w. (ok "", w);
  read_file = λ file w. (ok "", w);
  write_file = λ file text w. write_text file (parse_uint text) w;
  mkdir_all = λ path w. (ok tt, w);
  remove_all = λ path w. w;
  exists = λ path w. true;
  read_dir = λ path w. (ok [], w);
}

differ : (memsw_file === limit_file) ≡ false
unfolding file subsystem_path path_join
differ = refl

alike : (limit_file === limit_file) ≡ true
unfolding file subsystem_path path_join
alike = refl

parsed : parse_uint (decimal 5000) ≡ some 5000
parsed = parse_uint-decimal 5000 (omega arith)

write_limit :
    (w : Limits)
    → 8192 ≤ w.1
    → let r = cgroups.write_file limit_file (decimal 5000) w in
      (r.0 ≡ ok tt) × (r.1.0 ≡ 8192) × (r.1.1 ≡ w.1)
write_limit w below = ground (arith, alike, parsed)

write_limit_above :
    (w : Limits) → w.1 < 8192 → (cgroups.write_file limit_file (decimal 5000) w).1 ≡ w
write_limit_above w above = ground (arith, alike, parsed)

write_memsw :
    (w : Limits)
    → w.0 ≤ 8192
    → let r = cgroups.write_file memsw_file (decimal 5000) w in
      (r.0 ≡ ok tt) × (r.1.1 ≡ 8192) × (r.1.0 ≡ w.0)
write_memsw w below = ground (arith, differ, parsed)

abbrev cgroup : MemoryCgroup cgroups limit_file memsw_file 5000
cgroup = record {
  limit = λ w. w.0;
  memsw = λ w. w.1;
  in_pages = 8192;
  has_room = λ w. true;
  start_keeps = λ cmd w. (refl, refl, refl);
  write_limit =
      λ w room below. let (done, set, kept) = write_limit w below in (done, set, kept, refl);
  write_limit_above = write_limit_above;
  write_memsw =
      λ w room below. let (done, set, kept) = write_memsw w below in (done, set, kept, refl);
}

abbrev host : Host PortPool Limits
host = record { container = web; port_pool = ports_left []; world = (4096, 4096) }

limit_memory_both_example :
    let r = limit_memory cgroups "/cgroups" (record { limit_in_bytes = 5000 }) host in
    (r.0 ≡ ok tt)
    × (cgroup.limit r.1.world ≡ 8192)
    × (cgroup.memsw r.1.world ≡ 8192)
    × (r.1.container.current_memory_limits ≡ some (record { limit_in_bytes = 5000 }))
limit_memory_both_example =
    limit_memory_both cgroups "/cgroups" host 5000 cgroup (λ absent. refl) refl (omega arith)
