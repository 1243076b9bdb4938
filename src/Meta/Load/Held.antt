-- ===== src/Meta/Load/Held.antt =====
-- cominitLoadVerifyMetadata gives back what it gets: the descriptor of the partition and the context of
-- the public key.
use cominit.Base.{ℕ, [], Bytes}
use cominit.Crypto.{crypto_verify_signature}
use cominit.Machine.{Kernel}
use cominit.Machine.Held.Balance.{Releases}
use cominit.Machine.Held.Bracket.{releases}
use cominit.Machine.Held.Neutral.{neutral-Releases, neutral-Simple, neutral-meta}
use cominit.Meta.Load.{read_region, bin_readall, verify_and_parse, load_verify_metadata}
use cominit.Meta.Load.Quiet.{read_loop-Respects, verify_with_key-Respects, parse_metadata-Respects}

module _ (kernel : Kernel) where
  bin_readall-Releases :
      (rounds : ℕ) (buf : Bytes) (fd offset len : ℕ)
      → Releases [] (bin_readall kernel rounds buf fd offset len)
  unfolding bin_readall
  bin_readall-Releases rounds buf fd offset len =
      search (releases, neutral-Releases, neutral-Simple, read_loop-Respects) depth 20

  read_region-Releases : (rounds : ℕ) → Releases [] (read_region kernel rounds)
  unfolding read_region
  read_region-Releases rounds = search (releases, bin_readall-Releases) depth 20

  verify_signature-Releases :
      (bytes signature keyfile : Bytes)
      → Releases [] (crypto_verify_signature kernel bytes signature keyfile)
  unfolding crypto_verify_signature
  verify_signature-Releases bytes signature keyfile =
      search (releases, neutral-Releases, neutral-Simple, verify_with_key-Respects) depth 20

  pub load_verify_metadata-Releases :
      (rounds : ℕ) (keyfile : Bytes) → Releases [] (load_verify_metadata kernel rounds keyfile)
  unfolding load_verify_metadata verify_and_parse
  load_verify_metadata-Releases rounds keyfile =
      search
        (
          releases, read_region-Releases, verify_signature-Releases, neutral-Releases,
          neutral-Simple, neutral-meta, parse_metadata-Respects,
        )
        depth 20
