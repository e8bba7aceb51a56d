-- ===== src/DockerStats.antt =====
-- cli-cpp-legacy/src/docker_stats.cpp: `parseDockerStats`.
use expo_builder_local.Prelude.{
  ℕ, Bool, not, ◌&&◌, ◌||◌, ltb, codes, Option, none, some, if◌then◌else◌,
}
use expo_builder_local.Prelude.Int.{pos, negsuc}
use expo_builder_local.Doubles.{Doubles}
use expo_builder_local.Json.Value.{Json}
use expo_builder_local.Json.Access.{get, is_object, is_array, as_double, size}

-- `ContainerStats`
pub record ContainerStats (Double : Type 0) : Type 0 where
  pub cpu_percent : Double
  pub mem_used_mb : Double
  pub mem_limit_mb : Double
  pub mem_percent : Double

module _ (fp : Doubles) where
  open fp use {Double, of_int, lt, eq, add, sub, mul, div}

  abbrev of_nat : ℕ → Double
  of_nat n = of_int (pos n)

  -- b <= a
  unfoldable pub at_most : Double → Double → Bool
  at_most b a = lt b a || eq b a

  -- std::max
  unfoldable pub larger : Double → Double → Double
  larger a b = if lt a b then b else a

  unfoldable pub total_usage : Json Double → Double
  total_usage stats =
      as_double (of_nat 0) (get (codes "total_usage") (get (codes "cpu_usage") stats))

  unfoldable pub system_usage : Json Double → Double
  system_usage stats = as_double (of_nat 0) (get (codes "system_cpu_usage") stats)

  -- the number of processors
  unfoldable pub online_cpus : Json Double → Double
  online_cpus stats =
      let online = as_double (of_nat 0) (get (codes "online_cpus") stats) in
      let percpu = get (codes "percpu_usage") (get (codes "cpu_usage") stats) in
      let counted =
        if is_array percpu && ltb 0 (size percpu) then of_nat (size percpu) else of_nat 1 in
      if at_most online (of_nat 0) then counted else online

  unfoldable pub cpu_percent : Json Double → Json Double → Double
  cpu_percent stats before =
      let cpu_delta = sub (total_usage stats) (total_usage before) in
      let system_delta = sub (system_usage stats) (system_usage before) in
      if lt (of_nat 0) system_delta && lt (of_nat 0) cpu_delta
      then mul (mul (div cpu_delta system_delta) (online_cpus stats)) (of_nat 100)
      else of_nat 0

  -- What of the memory in use is the kernel's cache.
  unfoldable pub cached : Json Double → Double
  cached detail =
      let cache = as_double (of_int (negsuc 0)) (get (codes "cache") detail) in
      let inactive = as_double (of_nat 0) (get (codes "inactive_file") detail) in
      if lt cache (of_nat 0) then inactive else cache

  unfoldable pub used_memory : Json Double → Double
  used_memory memory = larger (of_nat 0) (
      sub (as_double (of_nat 0) (get (codes "usage") memory)) (cached (get (codes "stats") memory)))

  unfoldable pub memory_limit : Json Double → Double
  memory_limit memory = as_double (of_nat 1) (get (codes "limit") memory)

  unfoldable pub memory_percent : Double → Double → Double
  memory_percent used limit =
      if lt (of_nat 0) limit then mul (div used limit) (of_nat 100) else of_nat 0

  unfoldable pub stats_of : Json Double → ContainerStats Double
  stats_of raw =
      let stats = get (codes "cpu_stats") raw in
      let before = get (codes "precpu_stats") raw in
      let memory = get (codes "memory_stats") raw in
      let mb = mul (of_nat 1024) (of_nat 1024) in
      record {
        cpu_percent = cpu_percent stats before;
        mem_used_mb = div (used_memory memory) mb;
        mem_limit_mb = div (memory_limit memory) mb;
        mem_percent = memory_percent (used_memory memory) (memory_limit memory);
      }

  unfoldable pub parse_docker_stats : Json Double → Option (ContainerStats Double)
  parse_docker_stats raw =
      if not (is_object raw)
      then none
      else if not (is_object (get (codes "cpu_stats") raw))
          || not (is_object (get (codes "precpu_stats") raw))
      then none
      else some (stats_of raw)
