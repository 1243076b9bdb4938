-- ===== src/Cli/Options.antt =====
-- On single options of the argument vector.
use cominit.Base.{
  ℕ, zero, suc, ◌+◌, ◌≤◌, ◌<◌, true, false, List, [], ◌∷◌, ◌++◌, none, some, ◌≡◌, ◌≢◌, ◌∙◌, refl,
  arith, lt→ltb, Bytes, length, length-append, length-pos, codes, All, append_assoc, append-nil,
  Option-cases, inl, inr, equal,
}
use cominit.Base.Run.{done, state}
use cominit.Cli.{
  CliArgs, parse_device_node, parse_option, parse_arg_value, set_option, set_device, set_flag,
  param_check, pcr_loop, tpm_parse_pcr_indexes,
}
use cominit.Libc.Str.{starts_with}
use cominit.Libc.Printf.{
  decimal, decimal-StartsWithDigit, StartsWithDigit, decimal-ne-nil, Stops, strtoul-decimal_before,
}
use cominit.Libc.Strtoul.{strtoul, ulong_mod}

-- `root=` and `cominit.rootfs=` with a value: the device is stored if it is below /dev and fits its
-- array, and nothing is changed if not; no other option is touched in either case.
pub parse_option-root :
    (pcr_count : ℕ) (v : Bytes) (ctx : CliArgs)
    → state (parse_option pcr_count (codes "root=" ++ v) ctx)
      ≡ (elim (parse_device_node v) [ none ↦ ctx | some d ↦ record ctx { dev_node_root_fs = d } ])
unfolding parse_option set_option set_device set_flag parse_arg_value param_check starts_with equal
parse_option-root pcr_count v ctx = elim (Option-cases (parse_device_node v)) [
  | inl e ↦ rw (e, state)
  | inr (d, e) ↦ rw (e, state)
]

-- The indexes with a comma between two of them.
unfoldable pub render_seal : List ℕ → Bytes
render_seal [] = []
render_seal (i ∷ []) = decimal i
render_seal (i ∷ j ∷ is) = decimal i ++ (b',' ∷ render_seal (j ∷ is))

module _ (pcr_count : ℕ) where
  pcr_loop-read :
      (fuel i : ℕ) (t rest : Bytes) (seal : List ℕ)
      → StartsWithDigit t
      → strtoul (t ++ rest)
        ≡ record { value = i; range_error = false; converted = true; rest = rest }
      → i < pcr_count
      → length seal < pcr_count
      → pcr_loop pcr_count (suc fuel) (t ++ rest) seal
        ≡ pcr_loop pcr_count fuel rest (seal ++ i ∷ [])
  unfolding pcr_loop
  pcr_loop-read fuel i [] rest seal d e fits room = absurd d
  pcr_loop-read fuel i (c ∷ s) rest seal d e fits room = ground arith

  pcr_loop-decimal :
      (fuel i : ℕ) (rest : Bytes) (seal : List ℕ)
      → i < ulong_mod
      → Stops rest
      → i < pcr_count
      → length seal < pcr_count
      → pcr_loop pcr_count (suc fuel) (decimal i ++ rest) seal
        ≡ pcr_loop pcr_count fuel rest (seal ++ i ∷ [])
  pcr_loop-decimal fuel i rest seal small stops =
      pcr_loop-read fuel i (decimal i) rest seal (decimal-StartsWithDigit i)
        (strtoul-decimal_before i rest small stops)

  pcr_loop-comma :
      (fuel : ℕ) (p : Bytes) (seal : List ℕ)
      → pcr_loop pcr_count (suc fuel) (b',' ∷ p) seal ≡ pcr_loop pcr_count fuel p seal
  unfolding pcr_loop
  pcr_loop-comma fuel p seal = refl

  pcr_loop-nil : (fuel : ℕ) (seal : List ℕ) → pcr_loop pcr_count fuel [] seal ≡ seal
  unfolding pcr_loop
  pcr_loop-nil zero seal = refl
  pcr_loop-nil (suc fuel) seal = refl

  -- Digits and commas are read in turn; the text is long enough fuel.
  pcr_loop-render :
      (is : List ℕ) (fuel : ℕ) (seal : List ℕ)
      → All (λ i. (i < pcr_count) × (i < ulong_mod)) is
      → length seal + length is ≤ pcr_count
      → length (render_seal is) ≤ fuel
      → pcr_loop pcr_count fuel (render_seal is) seal ≡ seal ++ is
  unfolding render_seal
  pcr_loop-render [] fuel seal h room enough = rw append-nil (pcr_loop-nil fuel seal)
  pcr_loop-render (i ∷ []) zero seal h room enough =
      absurd (omega (arith, length-pos (decimal i) (decimal-ne-nil i)))
  pcr_loop-render (i ∷ []) (suc fuel) seal (h, hs) room enough = rw (← append-nil (decimal i)) (
      pcr_loop-decimal fuel i [] seal h.1 tt h.0 (omega arith) ∙ pcr_loop-nil fuel (seal ++ i ∷ []))
  pcr_loop-render (i ∷ j ∷ is) zero seal h room enough = absurd (
      omega (
        arith,
        length-append (decimal i) (b',' ∷ render_seal (j ∷ is)),
        length-pos (decimal i) (decimal-ne-nil i),
      ))
  pcr_loop-render (i ∷ j ∷ is) (suc zero) seal h room enough = absurd (
      omega (
        arith,
        length-append (decimal i) (b',' ∷ render_seal (j ∷ is)),
        length-pos (decimal i) (decimal-ne-nil i),
      ))
  pcr_loop-render (i ∷ j ∷ is) (suc (suc fuel)) seal (h, hs) room enough =
      pcr_loop-decimal (suc fuel) i (b',' ∷ render_seal (j ∷ is)) seal h.1 (omega arith) h.0
        (omega arith)
      ∙ pcr_loop-comma fuel (render_seal (j ∷ is)) (seal ++ i ∷ [])
      ∙ pcr_loop-render (j ∷ is) fuel (seal ++ i ∷ []) hs
          (omega (arith, length-append seal (i ∷ [])))
          (omega (
            arith,
            length-append (decimal i) (b',' ∷ render_seal (j ∷ is)),
            length-pos (decimal i) (decimal-ne-nil i),
          ))
      ∙ append_assoc seal (i ∷ []) (j ∷ is)

  -- A list of indexes in decimal, with a comma between two of them, is stored as it was meant, if
  -- it is not empty, not longer than the array, and each index is below TPM2_PT_PCR_COUNT.
  pub tpm_parse_pcr_indexes-render_seal :
      (is : List ℕ) (ctx : CliArgs)
      → is ≢ []
      → length is ≤ pcr_count
      → All (λ i. (i < pcr_count) × (i < ulong_mod)) is
      → tpm_parse_pcr_indexes pcr_count (render_seal is) ctx
        ≡ done tt (record ctx { pcr_seal = is })
  unfolding tpm_parse_pcr_indexes
  tpm_parse_pcr_indexes-render_seal is ctx ne room h = rw (
    pcr_loop-render is (length (render_seal is)) [] h (omega arith) (omega arith),
    lt→ltb 0 (length is) (length-pos is ne),
  )
