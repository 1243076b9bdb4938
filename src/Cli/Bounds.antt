-- ===== src/Cli/Bounds.antt =====
-- On the options that the argument vector leaves behind.
use mathlib.Core.Path.{subst}
use cominit.Base.{
  ℕ, zero, suc, ◌≤◌, ◌<◌, Bool, true, false, List, [], ◌∷◌, ◌++◌, some, ◌≡◌, ◌⊎◌, inl, inr, arith,
  Bytes, length, length-append, codes, All, All-append, Option-cases, if_both,
}
use cominit.Base.Run.{Run, state}
use cominit.Base.Run.Safety.{Safe, after-Safe, state-Safe}
use cominit.Cli.{
  CliArgs, initial_args, is_digit, parse_device_node, tpm_parse_pcr_index, pcr_loop,
  tpm_parse_pcr_indexes, set_option, set_device, set_log_level, set_flag, parse_option, parse_args,
  parse_arg_value,
}
use cominit.Libc.Str.{starts_with}
use cominit.Libc.Strtoul.{strtoul}
use cominit.Output.{parse_log_level}

-- No device, or a path below /dev that fits its array with its NUL.
abbrev pub IsDevice : Bytes → Type 0
IsDevice d = (d ≡ []) ⊎ ((starts_with (codes "/dev/") d ≡ true) × (length d < 256))

-- Devices fit; indexes are below TPM2_PT_PCR_COUNT, and so is their count; the level is one
-- of the six or marked invalid.
pub record IsBounded (pcr_count : ℕ) (ctx : CliArgs) : Type 0 where
  pub root_device : IsDevice ctx.dev_node_root_fs
  pub blob_device : IsDevice ctx.dev_node_blob
  pub crypt_device : IsDevice ctx.dev_node_crypt
  pub index_fits : ctx.pcr_set ≡ true → ctx.pcr_index < pcr_count
  pub seals_fit : All (λ i. i < pcr_count) ctx.pcr_seal
  pub count_fits : length ctx.pcr_seal ≤ pcr_count
  pub level_fits : (ctx.visible_log_level < 6) ⊎ (ctx.visible_log_level ≡ 7)

parse_device_node-IsDevice : (v d : Bytes) → parse_device_node v ≡ some d → IsDevice d
unfolding parse_device_node
parse_device_node-IsDevice v d h = ground arith

module _ (pcr_count : ℕ) where
  P : CliArgs → Type 0
  P = IsBounded pcr_count

  SealFits : List ℕ → Type 0
  SealFits seal = All (λ i. i < pcr_count) seal × (length seal ≤ pcr_count)

  append-SealFits :
      (seal : List ℕ) (i : ℕ)
      → SealFits seal
      → i < pcr_count
      → length seal < pcr_count
      → SealFits (seal ++ i ∷ [])
  unfolding SealFits
  append-SealFits seal i (h, k) fits room = (
    All-append (λ i. i < pcr_count) seal (i ∷ []) h (fits, tt),
    omega (arith, length-append seal (i ∷ [])),
  )

  pcr_loop-SealFits :
      (fuel : ℕ) (p : Bytes) (seal : List ℕ)
      → SealFits seal
      → SealFits (pcr_loop pcr_count fuel p seal)
  unfolding pcr_loop
  pcr_loop-SealFits zero p seal h = h
  pcr_loop-SealFits (suc fuel) [] seal h = h
  pcr_loop-SealFits (suc fuel) (c ∷ p) seal h =
      let n = strtoul (c ∷ p) in
      let nil : SealFits [] = unfold SealFits in (tt, omega arith) in
      if_both SealFits (is_digit c)
        (λ _.
          if_both SealFits _
            (λ ok.
              pcr_loop-SealFits fuel n.rest (seal ++ n.value ∷ [])
                (append-SealFits seal n.value h (ground arith) (ground arith)))
            (λ _. nil))
        (λ _. pcr_loop-SealFits fuel p seal h)

  tpm_parse_pcr_indexes-Safe :
      (v : Bytes) (ctx : CliArgs) → P ctx → Safe P (tpm_parse_pcr_indexes pcr_count v ctx)
  unfolding tpm_parse_pcr_indexes P SealFits
  tpm_parse_pcr_indexes-Safe v ctx h =
      ground (arith, pcr_loop-SealFits (length v) v [] (tt, omega arith))

  tpm_parse_pcr_index-Safe :
      (v : Bytes) (ctx : CliArgs) → P ctx → Safe P (tpm_parse_pcr_index pcr_count v ctx)
  unfolding tpm_parse_pcr_index P
  tpm_parse_pcr_index-Safe v ctx h = ground arith

  set_log_level-Safe : (v : Bytes) (ctx : CliArgs) → P ctx → Safe P (set_log_level pcr_count v ctx)
  unfolding set_log_level parse_log_level P
  set_log_level-Safe v ctx h = ground arith

  set_option-Safe :
      (arg key1 key2 : Bytes) (set : Bytes → Run CliArgs (Unit {0})) (ctx : CliArgs)
      → P ctx
      → ((v : Bytes) → Safe P (set v ctx))
      → Safe P (set_option pcr_count arg key1 key2 set ctx)
  unfolding set_option
  set_option-Safe arg key1 key2 set ctx h k = elim (Option-cases (parse_arg_value arg key1 key2)) [
    | inl e ↦ rw (e, Safe) h
    | inr (v, e) ↦ rw (e, Safe) (k v)
  ]

  set_device-Safe :
      (store : Bytes → CliArgs → CliArgs) (v : Bytes) (ctx : CliArgs)
      → P ctx
      → ((d : Bytes) → IsDevice d → P (store d ctx))
      → Safe P (set_device pcr_count store v ctx)
  unfolding set_device
  set_device-Safe store v ctx h k = elim (Option-cases (parse_device_node v)) [
    | inl e ↦ rw (e, Safe) h
    | inr (d, e) ↦ rw (e, Safe) (k d (parse_device_node-IsDevice v d e))
  ]

  set_flag-Safe :
      (test : Bool) (set : CliArgs → CliArgs) (ctx : CliArgs)
      → P ctx
      → (P ctx → P (set ctx))
      → Safe P (set_flag pcr_count test set ctx)
  unfolding set_flag
  set_flag-Safe true set ctx h k = k h
  set_flag-Safe false set ctx h k = h

  -- The steps of one round, each on what the one before has left.
  parse_option-Safe :
      (arg : Bytes) (ctx : CliArgs) → P ctx → Safe P (parse_option pcr_count arg ctx)
  unfolding parse_option
  parse_option-Safe arg ctx h =
      after-Safe P _ _
        (set_option-Safe arg _ _ _ ctx h λ v. set_device-Safe _ v ctx h λ d hd. root d hd ctx h)
        λ _ c1 _ h1.
          after-Safe P _ _ (set_option-Safe arg _ _ _ c1 h1 λ v. set_log_level-Safe v c1 h1)
            λ _ c2 _ h2. after-Safe P _ _ (set_flag-Safe _ _ c2 h2 (selinux c2)) λ _ c3 _ h3.
              after-Safe P _ _ (set_flag-Safe _ _ c3 h3 (enforcing c3)) λ _ c4 _ h4.
                after-Safe P _ _
                  (set_option-Safe arg _ _ _ c4 h4 λ v. tpm_parse_pcr_index-Safe v c4 h4)
                  λ _ c5 _ h5.
                    after-Safe P _ _
                      (set_option-Safe arg _ _ _ c5 h5
                        λ v. set_device-Safe _ v c5 h5 λ d hd. blob d hd c5 h5)
                      λ _ c6 _ h6.
                        after-Safe P _ _
                          (set_option-Safe arg _ _ _ c6 h6 λ v. tpm_parse_pcr_indexes-Safe v c6 h6)
                          λ _ c7 _ h7.
                            set_option-Safe arg _ _ _ c7 h7
                              λ v. set_device-Safe _ v c7 h7 λ d hd. crypt d hd c7 h7
    where
      root : (d : Bytes) → IsDevice d → (c : CliArgs) → P c → P (record c { dev_node_root_fs = d })
      root d hd c h = unfold P in ground arith

      blob : (d : Bytes) → IsDevice d → (c : CliArgs) → P c → P (record c { dev_node_blob = d })
      blob d hd c h = unfold P in ground arith

      crypt : (d : Bytes) → IsDevice d → (c : CliArgs) → P c → P (record c { dev_node_crypt = d })
      crypt d hd c h = unfold P in ground arith

      selinux : (c : CliArgs) → P c → P (record c { enable_selinux = true })
      selinux c h = unfold P in ground arith

      enforcing : (c : CliArgs) → P c → P (record c { enable_enforce_mode = true })
      enforcing c h = unfold P in ground arith

parse_args-IsBounded_from :
    (pcr_count : ℕ) (args : List Bytes) (ctx ctx' : CliArgs)
    → IsBounded pcr_count ctx
    → parse_args pcr_count args ctx ≡ some ctx'
    → IsBounded pcr_count ctx'
unfolding parse_args
parse_args-IsBounded_from pcr_count [] ctx ctx' h e =
    let same : ctx ≡ ctx' = cc in subst (IsBounded pcr_count) same h
parse_args-IsBounded_from pcr_count (arg ∷ args) ctx ctx' h e =
    let next = state (parse_option pcr_count arg ctx) in
    let kept : IsBounded pcr_count next =
      unfold P in
      state-Safe (P pcr_count) (parse_option pcr_count arg ctx)
        (parse_option-Safe pcr_count arg ctx h) in
    ground (arith, parse_args-IsBounded_from pcr_count args next ctx' kept)

-- Whatever the kernel passes as arguments, the options that `main` goes on with hold only devices
-- below /dev that fit their arrays, at most TPM2_PT_PCR_COUNT PCR indexes, each below this
-- constant, and a log level that is one of the six or marked invalid.
pub parse_args-IsBounded :
    (pcr_count : ℕ) (args : List Bytes) (ctx : CliArgs)
    → parse_args pcr_count args initial_args ≡ some ctx
    → IsBounded pcr_count ctx
parse_args-IsBounded pcr_count args ctx =
    parse_args-IsBounded_from pcr_count args initial_args ctx (ground arith)
