-- ===== src/Boot/Main/Ends.antt =====
-- main comes to its end.
use cominit.Base.{ℕ, ◌<◌, ◌≤◌, List, Bytes, Option, none, some, ◌≡◌}
use cominit.Base.Run.{hung}
use cominit.Automount.Search.Halts.{DirectoryEnds}
use cominit.Meta.Load.Reading.{ReadsFit, ReadsSome}
use cominit.Boot.{Build, boot, main_run, run_parsed, main}
use cominit.Boot.Halts.{Returns, EnoughRounds, boot-Halts}
use cominit.Boot.Main.{shell}
use cominit.Boot.Waiting.{retried-Comes}
use cominit.Cli.{CliArgs, parse_args, initial_args}
use cominit.Machine.{Machine, Kernel, part_meta_data_size}
use cominit.Machine.Halts.{Halts, Parents, Comes-hung, halts, call-Halts}

module _ (kernel : Kernel) (build : Build) (entries : ℕ) (returns : Returns kernel entries)
    (enough : EnoughRounds build entries) where
  run_parsed-Halts : (parsed : Option CliArgs) → Halts (run_parsed kernel build parsed)
  unfolding main_run
  run_parsed-Halts none = search halts
  run_parsed-Halts (some ctx) = record {
    at = λ m.
        retried-Comes (boot kernel build ctx m)
          ((boot-Halts kernel entries returns build enough ctx).at m) (call-Halts kernel shell);
  }

-- If each read of at least one byte gets one and no more than it asks for, no fork answers in the
-- child, readdir(3) returns NULL after at most a number of entries of /dev, the scans of /dev are
-- given more rounds than that and the loop over read at least 4096, then main comes to its end on
-- every command line and whatever else is answered: another program takes over, main comes back with
-- a failure, or an access is out of bounds, but no loop needs another round, and the process does not
-- end as a child.
pub main-ends :
    (kernel : Kernel) (build : Build) (entries pcr_count : ℕ) (argv : List Bytes) (m t : Machine)
    → ReadsFit kernel
    → ReadsSome kernel
    → Parents kernel
    → DirectoryEnds kernel entries
    → entries < build.scan_rounds
    → part_meta_data_size ≤ build.read_rounds
    → ¬ (main kernel build pcr_count argv m ≡ hung t)
unfolding main
main-ends kernel build entries pcr_count argv m t fit some_bytes parents ends scans reads =
    let returns : Returns kernel entries = record {
      fit = fit;
      some_bytes = some_bytes;
      parents = parents;
      ends = ends;
    } in
    let enough : EnoughRounds build entries = record { scans = scans; reads = reads } in
    Comes-hung _ t (
      (run_parsed-Halts kernel build entries returns enough
          (parse_args pcr_count argv initial_args)).at
        m)
