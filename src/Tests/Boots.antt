-- ===== src/Tests/Boots.antt =====
-- A boot from a partition with signed metadata, and the theorems on it.
use cominit.Base.{replicate}
use cominit.Base.{[], ◌∷◌, none, some, true, false, ◌+◌, ◌*◌, ◌<◌, ◌≡◌, refl, codes, equal}
use cominit.Base.Run.{done, state}
use cominit.Machine.{Machine}
use cominit.Automount.Search.{discover_rootfs, set_root_device}
use cominit.Boot
use cominit.Boot.Protect.{TpmBuild, protect_storage, attach_storage}
use cominit.Cli.Tpm.{use_tpm}
use cominit.Cryptsetup.{cryptsetup_open_luks_volume}
use cominit.Securememory.{securememory_esys_unseal}
use cominit.Subprocess.{subprocess_spawn}
use cominit.Tpm.Blob.{tpm_setup_blob, tpm_load_blob, tpm_unmount_blob}
use cominit.Tpm.Context.{init_tpm, tpm_extend_pcr, delete_tpm}
use cominit.Tpm.Pcr.{select_pcr}
use cominit.Tpm.Protect.{tpm_protect_data, tpm_mount_secure_storage}
use cominit.Tpm.Seal.{tpm_unseal_blob}
use cominit.Boot.Order.{wake_up-exact}
use cominit.Cli.{CliArgs, initial_args}
use cominit.Crypto.{crypto_verify_signature, verify_with_key}
use cominit.Crypto.Passphrase.{
  crypto_create_passphrase, seed_and_draw, free_drbg, crypto_create_unique_string, hash_of_boot_id,
  first_line, create_sha256_digest_from_keyfile,
}
use cominit.Crypto.Passphrase.Seeded.{Drawn, crypto_create_passphrase-Drawn}
use cominit.Keyring.{keyring_init_fake_hsm, keyring_add_user_key}
use cominit.Keyring.Enroll.{keyring_init_fake_hsm-Safe}
use cominit.Base.Run.Safety.{Safe}
use cominit.Dmctl.{
  setup_dm_device, map_device, create_new_dm_device, load_dm_table, start_dm_device, target_type,
  set_device_path,
}
use cominit.Libc.Str.{starts_with, strchr_cut, strtok, strtok_rest}
use cominit.Libc.Strtoul.{strtoul}
use cominit.Meta.Load.{
  load_verify_metadata, read_region, verify_and_parse, bin_readall, read_loop, overwrite, c_string,
  zero_buf, metadata_offset,
}
use cominit.Meta.Parse.{parse_metadata}
use cominit.Meta.Verity.{gen_verity_dm_tbl, verity_table}
use cominit.Minsetup.{
  setup_rootfs, is_mountable, setup_mapping, attempt, is_tolerated, mount_newroot,
  switch_into_rootfs, walk_initramfs, nftw_loop, setup_sysfiles, cleanup_sysfiles,
  cleanup_selinuxfiles,
}
use cominit.Tests.{start}
use cominit.Tests.Metadata.{signed}

wake_up-exact_example :
    ((Boot.wake_up 2500000 7 600000000).1 < 1000000000)
    × ((Boot.wake_up 2500000 7 600000000).0 * 1000000000 + (Boot.wake_up 2500000 7 600000000).1
        ≡ 7 * 1000000000 + 600000000 + 2500000 * 1000)
wake_up-exact_example = wake_up-exact 2500000 7 600000000

abbrev pub tpm : TpmBuild
tpm = record {
  tss = record {
    sizes = record {
      sensitive_data = 258;
      sensitive_create = 392;
      cryptsetup_dir = codes "/sbin/cryptsetup";
      half_drawn = replicate 32 0;
    };
    pcr_select_max = 4;
    public_size = 1;
    private_size = 1;
    looks_like_dir = false;
  };
  tpm_ctx = record { esys_ctx = none; tcti_ctx = none };
}

abbrev pub build : Boot.Build
build = record {
  initrd_selinux_policy_path = codes "/etc/policy";
  rootfs_selinux_policy_path = codes "/newroot/etc/policy";
  fake_hsm = none;
  tpm = some tpm;
  scan_rounds = 100;
  read_rounds = 4096;
}

abbrev pub ctx : CliArgs
ctx = record initial_args {
  dev_node_root_fs = codes "/dev/sda2";
  dev_node_crypt = codes "/dev/sda3";
  dev_node_blob = codes "/dev/sda4";
  pcr_set = true;
  pcr_index = 10;
  pcr_seal = 7 ∷ 10 ∷ [];
}

abbrev pub booted : Machine
booted = state (Boot.boot signed build ctx start)

pub boot-done : Boot.boot signed build ctx start ≡ done 1 booted
unfolding Boot.boot Boot.enroll_keys Boot.wait_for_rootfs Boot.mount_verified_rootfs
    Boot.start_rootfs Boot.wants_crypt discover_rootfs set_root_device load_verify_metadata
    read_region verify_and_parse bin_readall read_loop overwrite c_string zero_buf metadata_offset
    crypto_verify_signature verify_with_key parse_metadata starts_with strchr_cut strtok strtok_rest
    gen_verity_dm_tbl verity_table strtoul setup_rootfs is_mountable setup_mapping attempt
    is_tolerated mount_newroot switch_into_rootfs walk_initramfs nftw_loop setup_sysfiles
    cleanup_sysfiles cleanup_selinuxfiles setup_dm_device map_device create_new_dm_device
    load_dm_table start_dm_device target_type set_device_path equal protect_storage attach_storage
    use_tpm init_tpm tpm_extend_pcr create_sha256_digest_from_keyfile tpm_protect_data
    tpm_setup_blob tpm_unseal_blob tpm_load_blob select_pcr securememory_esys_unseal
    keyring_add_user_key cryptsetup_open_luks_volume subprocess_spawn tpm_unmount_blob delete_tpm
    tpm_mount_secure_storage
boot-done = refl

keyring_init_fake_hsm-Safe_example :
    Safe
      (λ t. t.meta ≡ start.meta)
      (keyring_init_fake_hsm signed (codes "/etc/fake_hsm") (codes "k1 k2") start)
keyring_init_fake_hsm-Safe_example =
    keyring_init_fake_hsm-Safe signed (codes "/etc/fake_hsm") (codes "k1 k2") start

abbrev drawn : Machine
drawn = state (crypto_create_passphrase signed 64 start)

crypto_create_passphrase-done : crypto_create_passphrase signed 64 start ≡ done [] drawn
unfolding crypto_create_passphrase seed_and_draw free_drbg crypto_create_unique_string
    hash_of_boot_id first_line
crypto_create_passphrase-done = refl

crypto_create_passphrase-Drawn_example : Drawn signed 64 [] start drawn
crypto_create_passphrase-Drawn_example =
    crypto_create_passphrase-Drawn signed 64 start drawn crypto_create_passphrase-done
