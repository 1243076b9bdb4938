-- ===== src/Tests/Mains.antt =====
-- Whole runs of main.
use cominit.Base.{ℕ, List, Bytes, [], ◌∷◌, some, codes, ◌≡◌, refl, ◌⊎◌, equal, arith}
use cominit.Base.Run.{done, failed, hung, state}
use cominit.Boot.{main, main_run}
use cominit.Boot.Main.{
  Asked, TakenOver, main-TakenOver, Answered, Refused, shell, main-failed, main-unverified,
}
use cominit.Boot.Main.Ends.{main-ends}
use cominit.Automount.Search.{next_name}
use cominit.Automount.Search.Halts.{DirectoryEnds}
use cominit.Machine.Halts.{Parents}
use cominit.Boot.Unverified.{spares_newroot}
use cominit.Machine.Frame.Added.{Adds}
use cominit.Tests.Tpms.{forged, forged-unverified}
use cominit.Cli.{
  parse_args, initial_args, param_check, parse_option, set_option, parse_arg_value, set_flag,
  tpm_parse_pcr_indexes, tpm_parse_pcr_index, set_device, parse_device_node,
}
use cominit.Libc.Str.{starts_with}
use cominit.Libc.Strtoul.{strtoul, strtoul_auto}
use cominit.Minsetup.{setup_sysfiles}
use cominit.Output.{at_end}
use cominit.Machine.{Machine, Kernel, ok, err, close, pipe, readdir}
use cominit.Machine.Held.{descriptor, held}
use cominit.Tests.{start}
use cominit.Tests.Boots.{build, ctx, booted, boot-done}
use cominit.Tests.Metadata.{signed, signed-ReadsFit, signed-ReadsSome}

abbrev argv : List Bytes
argv =
    codes "/init"
    ∷ codes "root=/dev/sda2"
    ∷ codes "crypt=/dev/sda3"
    ∷ codes "blob=/dev/sda4"
    ∷ codes "pcrExtend=10"
    ∷ codes "pcrSeal=7,10"
    ∷ []

argv-parsed : parse_args 24 argv initial_args ≡ some ctx
unfolding parse_args param_check equal parse_option set_option parse_arg_value starts_with set_flag
    tpm_parse_pcr_indexes strtoul tpm_parse_pcr_index strtoul_auto at_end set_device
    parse_device_node
argv-parsed = refl

main-done : main signed build 24 argv start ≡ done 1 booted
unfolding main main_run
main-done = rw (argv-parsed, boot-done) refl

main-TakenOver_example : TakenOver signed build 24 argv 1 booted
main-TakenOver_example =
    main-TakenOver signed build 24 argv start booted 1 signed-ReadsFit main-done

-- A pipe of which the second end was closed.
pipe-held : held ((close 4, ok 0 []) ∷ (pipe, ok 3 (4 ∷ [])) ∷ []) ≡ descriptor 3 ∷ []
unfolding held
pipe-held = refl

-- A kernel that refuses everything.
abbrev unwilling : Kernel
unwilling trace _ = err 1

abbrev given_up : Machine
given_up = state (main unwilling build 24 (codes "/init" ∷ []) start)

main-gives_up : main unwilling build 24 (codes "/init" ∷ []) start ≡ failed given_up
unfolding main parse_args param_check equal setup_sysfiles
main-gives_up = refl

main-failed_example : (Asked (codes "/init" ∷ []) × (given_up ≡ start)) ⊎ Refused shell given_up
main-failed_example =
    main-failed unwilling build 24 (codes "/init" ∷ []) start given_up main-gives_up

main-unverified_example :
    Adds spares_newroot start (state (main forged build 24 argv start))
    × ((n : ℕ) (t : Machine) → main forged build 24 argv start ≡ done n t → Answered shell n t)
main-unverified_example = main-unverified forged build forged-unverified 24 argv start

-- The signed partition, and an empty directory /dev.
abbrev settled : Kernel
settled trace readdir = ok 0 []
settled trace c = signed trace c

settled-Parents : Parents settled
settled-Parents t path argv bytes e = cc

settled-DirectoryEnds : DirectoryEnds settled 0
unfolding next_name
settled-DirectoryEnds t h = refl

main-ends_example :
    ¬ (main settled build 24 argv start ≡ hung (state (main settled build 24 argv start)))
main-ends_example =
    main-ends settled build 0 24 argv start (state (main settled build 24 argv start))
      (λ trace fd n k bytes e. signed-ReadsFit trace fd n k bytes e)
      (λ trace fd n k bytes h e. signed-ReadsSome trace fd n k bytes h e) settled-Parents
      settled-DirectoryEnds (omega arith) (omega arith)
